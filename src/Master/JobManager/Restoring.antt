-- ===== src/Master/JobManager/Restoring.antt =====
-- A meta job of the history (JobManager::BuildAndPushJob): which id the next new job gets.
use prun.Base.{
  ℕ, suc, ◌+◌, ◌-◌, ◌*◌, ◌/◌, ◌≤◌, ◌<◌, ◌≡◌, ◌∙◌, true, List, [], ◌∷◌, length, arith, Bool-cases,
  inl, inr, ◌⊎◌,
}
use prun.Containers.IntSet
use prun.Master.JobQueue.Consistency.{IsConsistent}
use prun.Master.JobManager.Descriptions.{NewJob}
use prun.Master.JobManager.Graphs.{MetaJob}
use prun.Master.JobManager.{Manager, register_job_name}
use prun.Master.JobManager.Building.{keep_ids, enqueue, restore_meta}
use prun.Master.JobManager.Ids.{register-Same}
use prun.Master.JobManager.Fresh.{
  IsFresh, SameJobs, SameJobs-IsConsistent, Registers, AllNew, register-SameJobs, keep_ids-SameJobs,
  enqueue-IsConsistent, Registers-below, Registers-eq, AllNew-eq,
}

-- The next id and the id of the next job are in step: the next job's id does not change the next
-- id, and the one behind it does.
keep_ids_even :
    (g i : ℕ) (js : List NewJob) (m : Manager)
    → m.job_id ≡ i
    → (keep_ids g i js m).job_id ≡ i + 2 * (length js / 2)
unfolding keep_ids
keep_ids_even g i [] m e = omega (arith, e)
keep_ids_even g i (j ∷ []) m e = ground arith
keep_ids_even g i (j ∷ k ∷ js) m e = keep_ids_even g (suc (suc i)) js _ (ground arith) ∙ omega arith

-- The first id is behind the next one: so it changes the next id.
keep_ids_behind :
    (g i : ℕ) (j : NewJob) (js : List NewJob) (m : Manager)
    → m.job_id < i
    → (keep_ids g i (j ∷ js) m).job_id ≡ suc i + 2 * (length js / 2)
unfolding keep_ids
keep_ids_behind g i j js m l = keep_ids_even g (suc i) js _ (ground arith)

keep_ids_count :
    (g i : ℕ) (js : List NewJob) (m : Manager)
    → m.job_id < i
    → 0 < length js
    → (keep_ids g i js m).job_id ≡ suc i + 2 * ((length js + 1) / 2 - 1)
keep_ids_count g i [] m l p = absurd (omega arith)
keep_ids_count g i (j ∷ js) m l p = omega (arith, keep_ids_behind g i j js m l)

-- The manager when BuildAndPushJob has given the ids
abbrev named : MetaJob → ℕ → Manager → Manager
named mj i m = keep_ids m.num_job_groups i mj.jobs (register_job_name mj.name m)

AllNew-from :
    (m : Manager) (i : ℕ) (js : List NewJob) → IsFresh m → m.job_id ≤ i → AllNew i js m.queue
AllNew-from m i js f l z a b = elim (Bool-cases (IntSet.contains z m.queue.id_to_job)) [
  | inl e ↦ absurd (omega (arith, f.below z e))
  | inr e ↦ e
]

restored :
    (second now i : ℕ) (mj : MetaJob) (m : Manager)
    → IsFresh m
    → m.job_id ≤ i
    → IsConsistent (restore_meta second now i mj m).queue
      × Registers i mj.jobs m.queue (restore_meta second now i mj m).queue
      × ((restore_meta second now i mj m).job_id ≡ (named mj i m).job_id)
unfolding restore_meta
restored second now i mj m f l =
    let n = named mj i m in
    let (x, y, z) = register-SameJobs mj.name m in
    let (a, b, c) = keep_ids-SameJobs m.num_job_groups i mj.jobs (register_job_name mj.name m) in
    let s : SameJobs m.queue n.queue = (a ∙ x, b ∙ y, c ∙ z) in
    let (k, r, e) =
      enqueue-IsConsistent second now i mj n
        (AllNew-eq i mj.jobs m.queue n.queue s (AllNew-from m i mj.jobs f l))
        (SameJobs-IsConsistent m.queue n.queue s f.consistent) in
    (k, Registers-eq i mj.jobs m.queue n.queue (enqueue second now i mj n).queue s r, e)

next_behind :
    (mj : MetaJob) (i : ℕ) (m : Manager)
    → m.job_id < i
    → 0 < length mj.jobs
    → (named mj i m).job_id ≡ suc i + 2 * ((length mj.jobs + 1) / 2 - 1)
next_behind mj i m l p =
    keep_ids_count m.num_job_groups i mj.jobs (register_job_name mj.name m)
      (omega (arith, (register-Same mj.name m).1)) p

-- If the views of the queue agree and all ids in it are below the next one, and a meta job of the
-- history, with an even number of jobs that is not zero, has ids behind the next one, then after
-- BuildAndPushJob the next new job gets the id of a job that is registered.
pub restore_meta_collides :
    (second now i k : ℕ) (mj : MetaJob) (m : Manager)
    → IsFresh m
    → length mj.jobs ≡ 2 * k + 2
    → m.job_id < i
    → let n = restore_meta second now i mj m in IntSet.contains n.job_id n.queue.id_to_job ≡ true
restore_meta_collides second now i k mj m f e l =
    let (c, r, d) = restored second now i mj m f (omega arith) in
    let b = next_behind mj i m l (omega arith) in
    let last : (restore_meta second now i mj m).job_id ≡ i + 2 * k + 1 = omega arith in
    r (restore_meta second now i mj m).job_id ∙ ground arith

-- If the views of the queue agree and all ids in it are below the next one, they do so after
-- BuildAndPushJob of a meta job of the history with an odd number of jobs and ids behind the next
-- one, or with an even number of jobs and ids from the next one on; and just these ids are
-- registered in addition.
pub restore_meta-IsFresh :
    (second now i k : ℕ) (mj : MetaJob) (m : Manager)
    → IsFresh m
    → ((length mj.jobs ≡ 2 * k + 1) × (m.job_id < i)) ⊎ ((length mj.jobs ≡ 2 * k) × (m.job_id ≡ i))
    → IsFresh (restore_meta second now i mj m)
      × Registers i mj.jobs m.queue (restore_meta second now i mj m).queue
restore_meta-IsFresh second now i k mj m f (inl (e, l)) =
    let (c, r, d) = restored second now i mj m f (omega arith) in
    let b = next_behind mj i m l (omega arith) in
    (
      record {
        consistent = c;
        below =
            Registers-below i _ mj.jobs m.queue (restore_meta second now i mj m).queue r
              (omega arith) (λ z h. omega (arith, f.below z h));
      },
      r,
    )
restore_meta-IsFresh second now i k mj m f (inr (e, l)) =
    let (c, r, d) = restored second now i mj m f (omega arith) in
    let s = (register-Same mj.name m).1 in
    let b = keep_ids_even m.num_job_groups i mj.jobs (register_job_name mj.name m) (omega arith) in
    (
      record {
        consistent = c;
        below =
            Registers-below i _ mj.jobs m.queue (restore_meta second now i mj m).queue r
              (omega arith) (λ z h. omega (arith, f.below z h));
      },
      r,
    )

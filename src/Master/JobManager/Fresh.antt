-- ===== src/Master/JobManager/Fresh.antt =====
-- The ids that JobManager gives are new, and stay below the next one, whatever jobs come from
-- clients, from the history and from cron.
use prun.Base.{
  ℕ, suc, ◌+◌, ◌≤◌, ◌<◌, ◌≡◌, refl, ap, ◌∙◌, true, false, ◌&&◌, ◌||◌, List, [], ◌∷◌, Text, ltb, leb,
  length, arith, Bool-cases, inl, inr,
}
use prun.Base.Int.{pos}
use prun.Containers.IntSet
use prun.Containers.IntSet.{IntSet}
use prun.Master.JobStore.{Queue}
use prun.Master.JobQueue
use prun.Master.JobQueue.Consistency.{IsConsistent, push_jobs-IsConsistent}
use prun.Master.JobManager.Descriptions.{NewJob}
use prun.Master.JobManager.Graphs.{MetaJob}
use prun.Master.JobManager.{
  Manager, call, new_job, register_job_name, with_queue, ids_from, give_ids, all_to_queue,
  set_job_id, set_group, add_first,
}
use prun.Master.JobManager.Building.{keep_ids, next_ids, enqueue}
use prun.Master.JobManager.Ids.{
  Same, settle_each-Same, register-Same, push_timeouts-queue, push_jobs-ids, is_in-ids_from,
  ids_from-AreNew,
}

-- The views of the queue agree, and the ids in it are below the next one.
pub record IsFresh (m : Manager) : Type 0 where
  pub consistent : IsConsistent m.queue
  pub below : (z : ℕ) → IntSet.contains z m.queue.id_to_job ≡ true → z < m.job_id

-- The same jobs are queued and the same ids registered.
abbrev pub SameJobs : Queue → Queue → Type 0
SameJobs q r = (r.jobs ≡ q.jobs) × (r.delayed ≡ q.delayed) × (r.id_to_job ≡ q.id_to_job)

pub SameJobs-IsConsistent : (q r : Queue) → SameJobs q r → IsConsistent q → IsConsistent r
SameJobs-IsConsistent q r (a, b, c) k = record {
  ids_ascend = rw c k.ids_ascend;
  listed_once = λ z. rw (a, b, c) (k.listed_once z);
}

pub same_queue : (q r : Queue) → r ≡ q → SameJobs q r
same_queue q r e = (
  ap (λ (x : Queue). x.jobs) e,
  ap (λ (x : Queue). x.delayed) e,
  ap (λ (x : Queue). x.id_to_job) e,
)

pub with_queue-SameJobs : (q : Queue) (m : Manager) → SameJobs q (with_queue q m).queue
with_queue-SameJobs q m =
    same_queue _ _ (settle_each-Same q.events (record m { queue = record q { events = [] } })).0

-- The ids from `i` on, of so many jobs, are registered in addition to those that were.
abbrev pub Registers : ℕ → List NewJob → Queue → Queue → Type 0
Registers i js q r =
    (z : ℕ)
    → IntSet.contains z r.id_to_job
      ≡ ((leb i z && ltb z (i + length js)) || IntSet.contains z q.id_to_job)

abbrev pub AllNew : ℕ → List NewJob → Queue → Type 0
AllNew i js q = (z : ℕ) → i ≤ z → z < i + length js → IntSet.contains z q.id_to_job ≡ false

pub all_to_queue-IsConsistent :
    (g i : ℕ) (js : List NewJob) (m : Manager)
    → AllNew i js m.queue
    → IsConsistent m.queue
    → IsConsistent (all_to_queue g (ids_from i js) m).queue
      × Registers i js m.queue (all_to_queue g (ids_from i js) m).queue
      × ((all_to_queue g (ids_from i js) m).job_id ≡ m.job_id)
unfolding ids_from
all_to_queue-IsConsistent g i [] m n k = (k, λ z. ground arith, refl)
all_to_queue-IsConsistent g i (j ∷ js) m n k =
    let q = JobQueue.push_jobs i (ids_from (suc i) js) (pos g) m.queue in
    let s = with_queue-SameJobs q m in
    let c =
      push_jobs-IsConsistent i (ids_from (suc i) js) (pos g) m.queue
        (ids_from-AreNew i (j ∷ js) m.queue.id_to_job n) k in
    (
      SameJobs-IsConsistent q _ s c,
      λ z.
          ap (IntSet.contains z) s.2
          ∙ push_jobs-ids i (ids_from (suc i) js) (pos g) m.queue z
          ∙ ap (λ b. b || IntSet.contains z m.queue.id_to_job) (is_in-ids_from i z (j ∷ js)),
      (settle_each-Same q.events (record m { queue = record q { events = [] } })).1,
    )

pub register-SameJobs : (n : Text) (m : Manager) → SameJobs m.queue (register_job_name n m).queue
register-SameJobs n m = same_queue _ _ (register-Same n m).0

-- The loops over new jobs leave what is queued alone, and count the next id.
pub give_ids-job_id :
    (g : ℕ) (js : List NewJob) (m : Manager)
    → SameJobs m.queue (give_ids g js m).queue × ((give_ids g js m).job_id ≡ m.job_id + length js)
unfolding give_ids
give_ids-job_id g [] m = ((refl, refl, refl), omega arith)
give_ids-job_id g (j ∷ js) m =
    let r : Manager = record (register_job_name j.name m) { job_id = m.job_id + 1 } in
    let m' : Manager = set_job_id g m.job_id j r in
    let ((a, b, c), e) = give_ids-job_id g js m' in
    let (x, y, z) = register-SameJobs j.name m in ((a ∙ x, b ∙ y, c ∙ z), omega (arith, e))

pub next_ids-job_id :
    (g : ℕ) (js : List NewJob) (m : Manager)
    → SameJobs m.queue (next_ids g js m).queue × ((next_ids g js m).job_id ≡ m.job_id + length js)
unfolding next_ids
next_ids-job_id g [] m = ((refl, refl, refl), omega arith)
next_ids-job_id g (j ∷ js) m =
    let m' : Manager = set_job_id g m.job_id j (record m { job_id = m.job_id + 1 }) in
    let (s, e) = next_ids-job_id g js m' in (s, omega (arith, e))

pub keep_ids-SameJobs :
    (g i : ℕ) (js : List NewJob) (m : Manager) → SameJobs m.queue (keep_ids g i js m).queue
unfolding keep_ids
keep_ids-SameJobs g i [] m = (refl, refl, refl)
keep_ids-SameJobs g i (j ∷ js) m =
    let (x, y, z) = register-SameJobs j.name m in
    let (a, b, c) = keep_ids-SameJobs g (suc i) js _ in (a ∙ x, b ∙ y, c ∙ z)

pub enqueue-IsConsistent :
    (second now i : ℕ) (mj : MetaJob) (m : Manager)
    → AllNew i mj.jobs m.queue
    → IsConsistent m.queue
    → IsConsistent (enqueue second now i mj m).queue
      × Registers i mj.jobs m.queue (enqueue second now i mj m).queue
      × ((enqueue second now i mj m).job_id ≡ m.job_id)
unfolding enqueue
enqueue-IsConsistent second now i mj m n k =
    let g = m.num_job_groups in
    let ids = ids_from i mj.jobs in
    let m' : Manager = set_group g mj ids (record m { num_job_groups = g + 1 }) in
    let k' : IsConsistent m'.queue = record {
      ids_ascend = k.ids_ascend;
      listed_once = k.listed_once;
    } in
    let (c, r, e) = all_to_queue-IsConsistent g i mj.jobs m' n k' in
    let (t, d) = push_timeouts-queue second now i mj.jobs (call new_job (all_to_queue g ids m')) in
    let u = same_queue _ _ t in
    (SameJobs-IsConsistent _ _ u c, λ z. ap (IntSet.contains z) u.2 ∙ r z, d ∙ e)

pub add_first-Same : (i : ℕ) (js : List NewJob) (m : Manager) → Same m (add_first i js m)
add_first-Same i [] m = (refl, refl, refl, refl)
add_first-Same i (j ∷ js) m = (refl, refl, refl, refl)

-- Ids from the next one on are new.
pub AllNew-next : (m : Manager) (js : List NewJob) → IsFresh m → AllNew m.job_id js m.queue
AllNew-next m js f z a b = elim (Bool-cases (IntSet.contains z m.queue.id_to_job)) [
  | inl e ↦ absurd (omega (arith, f.below z e))
  | inr e ↦ e
]

-- What is registered after new ids, up to the next one, is below it.
pub Registers-below :
    (i n : ℕ) (js : List NewJob) (q r : Queue)
    → Registers i js q r
    → i + length js ≤ n
    → ((z : ℕ) → IntSet.contains z q.id_to_job ≡ true → z < n)
    → (z : ℕ) → IntSet.contains z r.id_to_job ≡ true
    → z < n
Registers-below i n js q r g l b z e = elim (Bool-cases (IntSet.contains z q.id_to_job)) [
  | inl old ↦ b z old
  | inr new ↦ ground (arith, g z)
]

pub Registers-eq :
    (i : ℕ) (js : List NewJob) (p q r : Queue)
    → SameJobs p q
    → Registers i js q r
    → Registers i js p r
Registers-eq i js p q r s g z =
    g z ∙ ap (λ ids. (leb i z && ltb z (i + length js)) || IntSet.contains z ids) s.2

pub AllNew-eq :
    (i : ℕ) (js : List NewJob) (q r : Queue) → SameJobs q r → AllNew i js q → AllNew i js r
AllNew-eq i js q r s n z a b = ap (IntSet.contains z) s.2 ∙ n z a b

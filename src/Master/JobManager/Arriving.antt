-- ===== src/Master/JobManager/Arriving.antt =====
-- PushJob, PushJobs and the cron branches of BuildAndPushJob: the ids that they give are new.
use prun.Base.{
  ℕ, ◌+◌, ◌≡◌, ap, ◌∙◌, true, false, List, [], ◌∷◌, leb, is_empty, length, if◌then◌else◌, arith,
  Bool-cases, inl, inr,
}
use prun.Base.Int.{pos}
use prun.Containers.IntSet
use prun.Master.JobStore.{Queue}
use prun.Master.JobQueue
use prun.Master.JobQueue.Consistency.{IsConsistent, push_job-IsConsistent}
use prun.Master.JobManager.Descriptions.{NewJob}
use prun.Master.JobManager.Graphs.{MetaJob}
use prun.Master.JobManager.{
  Manager, call, new_job, register_job_name, ids_from, give_ids, all_to_queue, push_jobs, push_job,
  to_queue, set_job_id, set_group, add_first,
}
use prun.Master.JobManager.Building.{next_ids, enqueue, start_meta, restore_job}
use prun.Master.JobManager.Ids.{add_name-ids, settle_each-Same, push_timeouts-queue}
use prun.Master.JobManager.Fresh.{
  IsFresh, SameJobs-IsConsistent, same_queue, with_queue-SameJobs, Registers,
  all_to_queue-IsConsistent, give_ids-job_id, next_ids-job_id, add_first-Same, register-SameJobs,
  enqueue-IsConsistent, AllNew-next, Registers-below, Registers-eq, AllNew-eq,
}

-- The ids of a push of these jobs are new, registered with it, and below the next one, which
-- differs from all that are registered.
abbrev pub Arrives : List NewJob → Manager → Manager → Type 0
Arrives js m n =
    IsFresh n × Registers m.job_id js m.queue n.queue × (n.job_id ≡ m.job_id + length js)

arrived :
    (js : List NewJob) (m n : Manager)
    → IsFresh m
    → IsConsistent n.queue
    → Registers m.job_id js m.queue n.queue
    → n.job_id ≡ m.job_id + length js
    → Arrives js m n
arrived js m n f c r e = (
  record {
    consistent = c;
    below =
        Registers-below m.job_id n.job_id js m.queue n.queue r (omega (arith, e))
          (λ z i. omega (arith, f.below z i, e));
  },
  r,
  e,
)

full-Arrives :
    (second now : ℕ) (mj : MetaJob) (m : Manager)
    → IsFresh m
    → is_empty mj.jobs ≡ false
    → Arrives mj.jobs m (push_jobs second now mj m)
unfolding push_jobs
full-Arrives second now mj m f e =
    let i = m.job_id in
    let g = m.num_job_groups in
    let ids = ids_from i mj.jobs in
    let m0 : Manager = set_group g mj ids (record m { num_job_groups = g + 1 }) in
    let (s, d) = give_ids-job_id g mj.jobs m0 in
    let m' : Manager = give_ids g mj.jobs m0 in
    let c = SameJobs-IsConsistent m.queue m'.queue s f.consistent in
    let n = AllNew-eq i mj.jobs m.queue m'.queue s (AllNew-next m mj.jobs f) in
    let (k, r, j) = all_to_queue-IsConsistent g i mj.jobs m' n c in
    let a = add_first-Same i mj.jobs (all_to_queue g ids m') in
    let (t, b) =
      push_timeouts-queue second now i mj.jobs
        (call new_job (add_first i mj.jobs (all_to_queue g ids m'))) in
    let u = same_queue _ _ (t ∙ a.0) in
    rw (e, push_jobs)
      (arrived mj.jobs m _ f (SameJobs-IsConsistent _ _ u k)
        (λ z.
          ap (IntSet.contains z) u.2
          ∙ Registers-eq i mj.jobs m.queue m'.queue (all_to_queue g ids m').queue s r z)
        (b ∙ a.1 ∙ j ∙ d))

empty-Arrives : (js : List NewJob) (m : Manager) → IsFresh m → is_empty js ≡ true → Arrives js m m
empty-Arrives [] m f e = (f, λ z. ground arith, omega arith)
empty-Arrives (j ∷ js) m f e = absurd (ground arith)

-- If the views of the queue agree and all ids in it are below the next one, they do so after
-- PushJobs; its jobs are registered with the next ids, which were not registered, and nothing else
-- changes in what is registered.
pub push_jobs-Arrives :
    (second now : ℕ) (mj : MetaJob) (m : Manager)
    → IsFresh m
    → Arrives mj.jobs m (push_jobs second now mj m)
unfolding push_jobs
push_jobs-Arrives second now mj m f = elim (Bool-cases (is_empty mj.jobs)) [
  | inl e ↦ rw (e, push_jobs) (empty-Arrives mj.jobs m f e)
  | inr e ↦ full-Arrives second now mj m f e
]

-- The same of the meta job that a cron handler starts.
start_meta-Arrives :
    (second now : ℕ) (mj : MetaJob) (m : Manager)
    → IsFresh m
    → Arrives mj.jobs m (start_meta second now true mj m)
unfolding start_meta
start_meta-Arrives second now mj m f =
    let (s, d) = next_ids-job_id m.num_job_groups mj.jobs m in
    let m' : Manager = next_ids m.num_job_groups mj.jobs m in
    let c = SameJobs-IsConsistent m.queue m'.queue s f.consistent in
    let n = AllNew-eq m.job_id mj.jobs m.queue m'.queue s (AllNew-next m mj.jobs f) in
    let (k, r, j) = enqueue-IsConsistent second now m.job_id mj m' n c in
    arrived mj.jobs m _ f k
      (Registers-eq m.job_id mj.jobs m.queue m'.queue (enqueue second now m.job_id mj m').queue s r)
      (j ∙ d)

one-Registers :
    (i : ℕ) (j : NewJob) (q r : Queue)
    → r.id_to_job ≡ IntSet.insert i q.id_to_job
    → Registers i (j ∷ []) q r
one-Registers i j q r e z =
    ap (IntSet.contains z) e ∙ IntSet.contains-insert i z q.id_to_job ∙ ground arith

-- A job in the queue, with an id that was not registered
to_queue-IsConsistent :
    (i : ℕ) (j : NewJob) (m : Manager)
    → IntSet.contains i m.queue.id_to_job ≡ false
    → IsConsistent m.queue
    → IsConsistent (to_queue i m).queue
      × Registers i (j ∷ []) m.queue (to_queue i m).queue
      × ((to_queue i m).job_id ≡ m.job_id)
unfolding JobQueue.push_job
to_queue-IsConsistent i j m n k =
    let g = pos m.num_job_groups in
    let q = JobQueue.push_job i g m.queue in
    let s = with_queue-SameJobs q m in
    let r = JobQueue.register g i m.queue in
    (
      SameJobs-IsConsistent q _ s (push_job-IsConsistent i g m.queue n k),
      one-Registers i j m.queue (to_queue i m).queue (s.2 ∙ add_name-ids (r.job_of i).name i r),
      (settle_each-Same q.events (record m { queue = record q { events = [] } })).1,
    )

-- The same of PushJob.
pub push_job-Arrives :
    (second now : ℕ) (j : NewJob) (m : Manager)
    → IsFresh m
    → Arrives (j ∷ []) m (push_job second now j m)
unfolding push_job
push_job-Arrives second now j m f =
    let i = m.job_id in
    let r = register_job_name j.name m in
    let s = register-SameJobs j.name m in
    let m' : Manager = set_job_id m.num_job_groups i j (record r { job_id = i + 1 }) in
    let c = SameJobs-IsConsistent m.queue m'.queue s f.consistent in
    let n =
      AllNew-eq i (j ∷ []) m.queue m'.queue s (AllNew-next m (j ∷ []) f) i (omega arith)
        (omega arith) in
    let (k, g, e) = to_queue-IsConsistent i j m' n c in
    arrived (j ∷ []) m _ f k (Registers-eq i (j ∷ []) m.queue m'.queue (to_queue i m').queue s g) e

-- If the views of the queue agree and all ids in it are below the next one, they do so after
-- BuildAndPushJob of a single job of the history whose id is not registered, and just this id is
-- registered in addition.
pub restore_job-IsFresh :
    (second now i : ℕ) (j : NewJob) (m : Manager)
    → IsFresh m
    → IntSet.contains i m.queue.id_to_job ≡ false
    → IsFresh (restore_job second now i j m)
      × Registers i (j ∷ []) m.queue (restore_job second now i j m).queue
unfolding restore_job
restore_job-IsFresh second now i j m f n =
    let r = register_job_name j.name m in
    let s = register-SameJobs j.name m in
    let m' : Manager =
      set_job_id m.num_job_groups i j
        (record r { job_id = if leb m.job_id i then i + 1 else m.job_id }) in
    let c = SameJobs-IsConsistent m.queue m'.queue s f.consistent in
    let (k, g, e) = to_queue-IsConsistent i j m' (ap (IntSet.contains i) s.2 ∙ n) c in
    let t = Registers-eq i (j ∷ []) m.queue m'.queue (to_queue i m').queue s g in
    (
      record {
        consistent = k;
        below =
            Registers-below i _ (j ∷ []) m.queue (to_queue i m').queue t (ground (arith, e))
              (λ z h. ground (arith, f.below z h, e));
      },
      t,
    )

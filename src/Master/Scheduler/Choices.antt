-- ===== src/Master/Scheduler/Choices.antt =====
-- When GetJobForWorker (master/scheduler.cpp) plans nothing, what it counts in the history, and
-- which job OnTaskSendCompletion deletes.
use prun.Base.{
  ℕ, ◌≡◌, refl, ap, ◌∙◌, true, false, not, arith, ◌&&◌, ◌||◌, none, some, List, [], ◌∷◌, Text,
  text_eq_refl, ◌==◌, leb, Bool-cases, inl, inr,
}
use prun.Containers.IntSet.{IntSet}
use prun.Master.WorkerJob.{WorkerJob, has_task, get_jobs, get_total_num_tasks, get_job_id}
use prun.Master.WorkerJob.Tasks.{IsValid, has_task-delete_job}
use prun.Master.FailedWorkers.{add}
use prun.Master.Scheduler.{Scheduler, increment_num_exec, job_at, update_node_priority}
use prun.Master.Scheduler.Planning.{
  can_add_task_to_worker, Plan, take_first, resched_loop, get_resched_job_for_worker, task_loop,
  is_eligible, leave_tasks, tasks_at, take_tasks, job_loop, get_job_for_worker,
}
use prun.Master.Scheduler.Stopping.{reschedule_job, reschedule_each, reaches_failed}
use prun.Master.Scheduler.Completion.{delete_first, on_failed_sending, fail_at, knows, release_cpu}
use prun.Master.Scheduler.Failing.{kept_workers}
use prun.Master.Scheduler.Frames.{job_at-set_job}

-- The counts of all jobs, which the id -1 is not
abbrev SameHistory : Plan → Plan → Type 0
SameHistory p q =
    (j : ℕ) (r : Text) → q.scheduler.history (some j) r ≡ p.scheduler.history (some j) r

module _ (ip : Text) (cpu : ℕ) where
  task_loop-SameHistory :
      (j : ℕ) (ts : IntSet) (p : Plan) → SameHistory p (task_loop ip cpu none j ts p).0
  unfolding task_loop take_first increment_num_exec
  task_loop-SameHistory j [] p i r = refl
  task_loop-SameHistory j (t ∷ ts) p i r =
      elim (Bool-cases (
        leb cpu (get_total_num_tasks p.planned)
        || not (can_add_task_to_worker ip p.planned j p.scheduler))) [
          | inl e ↦ rw e refl
          | inr e ↦ rw e (task_loop-SameHistory j ts (take_first ip none j t p) i r)
        ]

  leave_tasks_history :
      (j : ℕ) (left : IntSet) (s : Scheduler) → (leave_tasks j left s).history ≡ s.history
  leave_tasks_history j [] s = refl
  leave_tasks_history j (t ∷ ts) s = refl

  job_loop-SameHistory : (js : List ℕ) (p : Plan) → SameHistory p (job_loop ip cpu none js p)
  unfolding job_loop take_tasks
  job_loop-SameHistory [] p i r = refl
  job_loop-SameHistory (j ∷ js) p i r = elim (Bool-cases (is_eligible ip none j p)) [
    | inl e ↦
        let t = task_loop ip cpu none j (tasks_at j p.scheduler) p in
        rw e (
          ap (λ f. f (some i) r) (leave_tasks_history j t.1 t.0.scheduler)
          ∙ task_loop-SameHistory j (tasks_at j p.scheduler) p i r)
    | inr e ↦ rw e (job_loop-SameHistory js p i r)
  ]

  -- When no task is to be rescheduled and nothing is planned yet, the history counts no execution
  -- of any job at any worker after GetJobForWorker that it did not count before, whatever is
  -- planned.
  pub get_job_for_worker-SameHistory :
      (p : Plan)
      → p.scheduler.need_reschedule ≡ []
      → p.planned.jobs ≡ []
      → (j : ℕ) (r : Text)
      → (get_job_for_worker ip cpu p).scheduler.history (some j) r ≡ p.scheduler.history (some j) r
  unfolding get_job_for_worker get_resched_job_for_worker resched_loop get_job_id
  get_job_for_worker-SameHistory p e d j r =
      let q : Plan = record p {
        planned = record p.planned { jobs = [] };
        scheduler = record p.scheduler { need_reschedule = [] };
      } in
      rw (e, d) (job_loop-SameHistory p.scheduler.jobs.order q j r)

-- The worker's first job goes, whatever was sent.
has_task-delete_first :
    (i k u : ℕ) (w : WorkerJob)
    → IsValid w
    → get_job_id w ≡ some i
    → has_task k u (delete_first w) ≡ (not (i == k) && has_task k u w)
unfolding delete_first
has_task-delete_first i k u w v e =
    rw (e, delete_first) ((has_task-delete_job i k u w v).1 ∙ ground arith)

-- A sending that failed, when the limit of failed workers is not reached
abbrev resent : ℕ → WorkerJob → Text → Scheduler → Scheduler
resent j w ip s = (reschedule_job w (release_cpu ip (get_total_num_tasks w) (fail_at j ip s))).0

one_job : (j : ℕ) (ts : IntSet) (w : WorkerJob) → w.jobs ≡ (j, ts) ∷ [] → get_jobs w ≡ j ∷ []
unfolding get_jobs
one_job j ts w e = rw e refl

resent_workers :
    (j : ℕ) (ts : IntSet) (w : WorkerJob) (ip : Text) (s : Scheduler)
    → w.jobs ≡ (j, ts) ∷ []
    → reaches_failed j (fail_at j ip s) ≡ false
    → (resent j w ip s).worker_of ≡ s.worker_of
unfolding reaches_failed update_node_priority reschedule_job reschedule_each
resent_workers j ts w ip s e f =
    let s' = release_cpu ip (get_total_num_tasks w) (fail_at j ip s) in
    ap (λ js. (reschedule_each w js s').0.worker_of) (one_job j ts w e) ∙ (kept_workers w j s' f).0

-- If the sent tasks are of one job, the worker's tasks are as maps and sets keep them, the failure
-- counts as the worker's first of the job, and with it the workers that failed the job are not too
-- many, then after OnTaskSendCompletion of the failure just the worker's tasks of the least job id
-- are gone, whatever job was sent.
pub on_failed_sending-deletes_first :
    (i j : ℕ) (ts : IntSet) (w : WorkerJob) (ip : Text) (s : Scheduler)
    → w.jobs ≡ (j, ts) ∷ []
    → IsValid (job_at ip s)
    → get_job_id (job_at ip s) ≡ some i
    → knows j ip s ≡ true
    → (add j ip s.failed).1 ≡ true
    → reaches_failed j (fail_at j ip s) ≡ false
    → (k u : ℕ)
    → has_task k u (job_at ip (on_failed_sending j w ip s))
      ≡ (not (i == k) && has_task k u (job_at ip s))
unfolding on_failed_sending
on_failed_sending-deletes_first i j ts w ip s e v g known new f k u =
    let r = resent j w ip s in
    rw
      (
        known,
        new,
        on_failed_sending,
        job_at-set_job ip ip (delete_first (job_at ip r)) r,
        text_eq_refl ip,
      )
      (ap (λ h. has_task k u (delete_first (h ip).job)) (resent_workers j ts w ip s e f)
        ∙ has_task-delete_first i k u (job_at ip s) v g)

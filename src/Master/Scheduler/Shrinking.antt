-- ===== src/Master/Scheduler/Shrinking.antt =====
-- A job that is not scheduled is not scheduled again by the reports of tasks and by the stopping of
-- jobs (master/scheduler.cpp, master/scheduled_jobs.h).
use prun.Base.{
  ℕ, ◌≡◌, refl, ap, ◌∙◌, Bool, true, false, ◌&&◌, Option, none, some, List, [], ◌∷◌, is_empty, Text,
  if◌then◌else◌, arith, Bool-cases, Option-cases, inl, inr,
}
use prun.Base.Int.{ℤ, pos, ltb_ℤ, ◌-ℤ◌}
use prun.Containers.IntSet.{IntSet}
use prun.Containers.IntMap
use prun.Containers.TextSet
use prun.Master.WorkerJob.{
  WorkerTask, WorkerJob, get_jobs, get_num_tasks, add_task, new_job, has_task,
}
use prun.Master.JobStore.{is_in, remove}
use prun.Master.JobQueue.{on_job_completion}
use prun.Master.FailedWorkers.{add}
use prun.Master.Scheduler.{
  Status, success, failure, timeout, failed_nodes_limit, completed, stop_task, notify, notify_all,
  Scheduler, remove_history, job_at, update_node_priority,
}
use prun.Master.Scheduler.Jobs.{
  on_remove_job, forget_name, release_from, release_one, release_group, leave_group, release_job,
  drop_job, finish_job, remove_job, set_executions, decrement_job_execution,
}
use prun.Master.Scheduler.Stopping.{
  stop_workers, stop_job, reschedule_one, reschedule_each, reschedule_job, reaches_failed,
  count_less,
}
use prun.Master.Scheduler.Completion.{
  on_error, on_task_completion, on_task_timeout, knows, fail_at, release_cpu,
}
use prun.Master.Scheduler.Forgetting.{stop_at_each-SameTasks, is_in-remove_job}

-- The same jobs are scheduled.
abbrev SameJobs : Scheduler → Scheduler → Type 0
SameJobs s r = r.jobs.order ≡ s.jobs.order

if-SameJobs :
    (b : Bool) (s r q : Scheduler) → SameJobs s r → SameJobs s q → SameJobs s (if b then r else q)
if-SameJobs true s r q h k = h
if-SameJobs false s r q h k = k

release_one-SameJobs : (b : Bool) (j : ℕ) (s : Scheduler) → SameJobs s (release_one b j s)
release_one-SameJobs true j s = refl
release_one-SameJobs false j s = refl

release_group-SameJobs : (b : Bool) (k : ℕ) (s : Scheduler) → SameJobs s (release_group b k s)
release_group-SameJobs true k s = refl
release_group-SameJobs false k s = refl

release_from-SameJobs :
    (o : Option ℕ) (j : ℕ) (ok : Bool) (s : Scheduler) → SameJobs s (release_from o j ok s)
unfolding leave_group
release_from-SameJobs none j ok s = release_one-SameJobs (ok && (s.spec_of j).has_cron) j s
release_from-SameJobs (some k) j ok s =
    if-SameJobs (on_job_completion k (s.queue.job_of j).vertex s.queue).1 s _ _
      (release_group-SameJobs (ok && s.group_cron k) k _) refl

release_job-SameJobs : (j : ℕ) (ok : Bool) (s : Scheduler) → SameJobs s (release_job j ok s)
unfolding release_job forget_name
release_job-SameJobs j ok s =
    release_from-SameJobs (s.queue.job_of j).job_group j ok (forget_name j s)
    ∙ if-SameJobs (is_empty (s.queue.job_of j).name) s s _ refl refl

-- No job is scheduled that was not.
module _ (i : ℕ) where
  abbrev pub Shrinks : Scheduler → Scheduler → Type 0
  Shrinks s r = is_in i s.jobs.order ≡ false → is_in i r.jobs.order ≡ false

  still_gone : (j : ℕ) (l : List ℕ) → is_in i l ≡ false → is_in i (remove j l) ≡ false
  unfolding is_in remove
  still_gone j [] h = refl
  still_gone j (x ∷ l) h = ground (arith, still_gone j l)

  if-Shrinks :
      (b : Bool) (s r q : Scheduler) → Shrinks s r → Shrinks s q → Shrinks s (if b then r else q)
  if-Shrinks true s r q h k = h
  if-Shrinks false s r q h k = k

  same-Shrinks : (s r : Scheduler) → SameJobs s r → Shrinks s r
  same-Shrinks s r e h = rw e h

  finish_job-Shrinks :
      (j : ℕ) (ok : Bool) (st : Status) (s : Scheduler) → Shrinks s (finish_job j ok st s)
  finish_job-Shrinks j ok st s h =
      still_gone j (release_job j ok (notify (completed j st) s)).jobs.order
        (rw (release_job-SameJobs j ok (notify (completed j st) s)) h)

  pub remove_job-Shrinks :
      (j : ℕ) (ok : Bool) (st : Status) (s : Scheduler) → Shrinks s (remove_job j ok st s)
  unfolding remove_job on_remove_job remove_history
  remove_job-Shrinks j ok st s =
      if-Shrinks (is_in j (drop_job j s).jobs.order) s (finish_job j ok st (drop_job j s))
        (drop_job j s) (finish_job-Shrinks j ok st (drop_job j s)) (λ h. h)

  decrement-Shrinks :
      (j : ℕ) (n : ℤ) (ok : Bool) (s : Scheduler) → Shrinks s (decrement_job_execution j n ok s)
  unfolding decrement_job_execution
  decrement-Shrinks j n ok s = elim (Option-cases (IntMap.find j s.jobs.executions)) [
    | inl e ↦ rw (e, decrement_job_execution) (λ h. h)
    | inr (m, e) ↦
        let s' = set_executions j (m -ℤ n) s in
        rw (e, decrement_job_execution)
          (if-Shrinks (ltb_ℤ (m -ℤ n) (pos 1)) s
            (remove_job j ok (if ok then success else failure) s') s'
            (remove_job-Shrinks j ok (if ok then success else failure) s') (λ h. h))
  ]

  stopped-Shrinks :
      (j : ℕ) (ok : Bool) (st : Status) (s : Scheduler)
      → Shrinks s (remove_job j ok st (stop_workers j s))
  unfolding stop_workers
  stopped-Shrinks j ok st s h =
      remove_job-Shrinks j ok st (stop_workers j s)
        (rw (ap (λ x. x.order) (stop_at_each-SameTasks j s.nodes s).3) h)

  pub stop_job-Shrinks : (j : ℕ) (s : Scheduler) → Shrinks s (stop_job j s)
  unfolding stop_job
  stop_job-Shrinks j s =
      if-Shrinks (is_in j s.jobs.order) s
        (notify notify_all (remove_job j false timeout (stop_workers j s))) s
        (stopped-Shrinks j false timeout s) (λ h. h)

  reschedule_one-Shrinks :
      (w : WorkerJob) (j : ℕ) (s : Scheduler) → Shrinks s (reschedule_one w j s).0
  unfolding reschedule_one
  reschedule_one-Shrinks w j s =
      let n = get_num_tasks j w in
      let s' = count_less j n s in
      elim (Bool-cases (is_in j s.jobs.order)) [
        | inl e ↦ elim (Bool-cases (reaches_failed j s')) [
          | inl f ↦ rw (e, f, reschedule_one) (stopped-Shrinks j false failed_nodes_limit s')
          | inr f ↦ elim (Bool-cases (s.spec_of j).no_reschedule) [
            | inl g ↦ rw (e, f, g, reschedule_one) (decrement-Shrinks j (pos n) false s')
            | inr g ↦ rw (e, f, g, reschedule_one) (λ h. h)
          ]
        ]
        | inr e ↦ rw (e, reschedule_one) (λ h. h)
      ]

  reschedule_each-Shrinks :
      (w : WorkerJob) (js : IntSet) (s : Scheduler) → Shrinks s (reschedule_each w js s).0
  unfolding reschedule_each
  reschedule_each-Shrinks w [] s h = h
  reschedule_each-Shrinks w (j ∷ js) s h =
      reschedule_each-Shrinks w js (reschedule_one w j s).0 (reschedule_one-Shrinks w j s h)

  on_error-Shrinks : (t : WorkerTask) (ip : Text) (s : Scheduler) → Shrinks s (on_error t ip s)
  unfolding on_error reschedule_job update_node_priority
  on_error-Shrinks t ip s =
      elim (Bool-cases (knows t.job_id ip s && (add t.job_id ip s.failed).1)) [
        | inl e ↦
            rw (e, on_error)
              (reschedule_each-Shrinks (add_task t.job_id t.task_id new_job)
                (get_jobs (add_task t.job_id t.task_id new_job))
                (release_cpu ip 1 (fail_at t.job_id ip s)))
        | inr e ↦ rw (e, on_error) (λ h. h)
      ]

  pub on_task_timeout-Shrinks :
      (t : WorkerTask) (ip : Text) (s : Scheduler) → Shrinks s (on_task_timeout t ip s)
  unfolding on_task_timeout on_task_completion
  on_task_timeout-Shrinks t ip s =
      let stopped = notify (stop_task ip t.job_id t.task_id) s in
      if-Shrinks (TextSet.contains ip s.by_ip && has_task t.job_id t.task_id (job_at ip s)) s
        (on_error t ip stopped) s (on_error-Shrinks t ip stopped) (λ h. h)

-- A job that was stopped is not scheduled.
pub stop_job_gone : (j : ℕ) (s : Scheduler) → is_in j (stop_job j s).jobs.order ≡ false
unfolding stop_job
stop_job_gone j s = elim (Bool-cases (is_in j s.jobs.order)) [
  | inl e ↦ rw (e, stop_job) (is_in-remove_job j false timeout (stop_workers j s))
  | inr e ↦ rw (e, stop_job) e
]

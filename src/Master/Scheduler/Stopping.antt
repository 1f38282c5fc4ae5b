-- ===== src/Master/Scheduler/Stopping.antt =====
-- How the scheduler stops jobs and plans the tasks of a lost or failed worker again: StopWorkers,
-- StopWorker, RescheduleJob, OnJobTimeout, StopJob, StopJobGroup, StopNamedJob and StopAllJobs of
-- master/scheduler.cpp. Commands to several workers go out in the order of `nodes`.
use prun.Base.{
  ℕ, Bool, false, not, ◌&&◌, ◌||◌, List, [], ◌∷◌, ◌++◌, map, is_empty, Text, ◌==◌, if◌then◌else◌,
}
use prun.Base.Int.{ℤ, pos, ltb_ℤ, ◌-ℤ◌}
use prun.Containers.IntSet.{IntSet}
use prun.Containers.IntMap
use prun.Containers.TextSet
use prun.Master.WorkerJob.{
  WorkerTask, WorkerJob, tasks_of, tasks_for, has_job, get_num_tasks, delete_job, get_all_tasks,
  get_jobs,
}
use prun.Master.FailedWorkers.{get_failed_nodes_cnt}
use prun.Master.JobStore.{is_in}
use prun.Master.Scheduler.{
  Scheduler, stop_task, stop_all, notify_all, timeout, failed_nodes_limit, notify, job_at, set_job,
  free_cpu, count_of,
}
use prun.Master.Scheduler.Jobs.{remove_job, decrement_job_execution, get_job_group, jobs_by_name}

abbrev pub stop_tasks : Text → List WorkerTask → Scheduler → Scheduler
stop_tasks ip ts s = record s {
  notices = s.notices ++ map (λ t. stop_task ip t.job_id t.task_id) ts;
}

-- The body of the first loop of StopWorkers
unfoldable pub stop_at : ℕ → Text → Scheduler → Scheduler
unfolding has_job get_num_tasks delete_job
stop_at j ip s =
    let w = job_at ip s in
    if has_job j w
    then set_job ip (delete_job j w).0
        (free_cpu ip (pos (get_num_tasks j w)) (stop_tasks ip (tasks_for j (tasks_of j w.jobs)) s))
    else s

unfoldable pub stop_at_each : ℕ → List Text → Scheduler → Scheduler
unfolding stop_at
stop_at_each j [] s = s
stop_at_each j (ip ∷ ips) s = stop_at_each j ips (stop_at j ip s)

-- The last loop of StopWorkers
unfoldable pub without_job : ℕ → List WorkerTask → List WorkerTask
without_job j [] = []
without_job j (t ∷ ts) = let rest = without_job j ts in if t.job_id == j then rest else t ∷ rest

-- StopWorkers
unfoldable pub stop_workers : ℕ → Scheduler → Scheduler
unfolding stop_at_each without_job
stop_workers j s =
    let s' = stop_at_each j s.nodes s in
    record s' {
      tasks_to_send = IntMap.erase j s'.tasks_to_send;
      need_reschedule = without_job j s'.need_reschedule;
    }

-- StopWorker
unfoldable pub stop_worker : Text → Scheduler → Scheduler
unfolding get_all_tasks
stop_worker ip s =
    if TextSet.contains ip s.nodes then stop_tasks ip (get_all_tasks (job_at ip s)) s else s

-- Whether the workers that failed the job are as many as it allows
unfoldable pub reaches_failed : ℕ → Scheduler → Bool
unfolding get_failed_nodes_cnt
reaches_failed j s =
    let limit = (s.spec_of j).max_failed_nodes in
    not (ltb_ℤ limit (pos 0)) && not (ltb_ℤ (pos (get_failed_nodes_cnt j s.failed)) limit)

-- `simultExecCnt_[ jobId ] -= n`
abbrev pub count_less : ℕ → ℕ → Scheduler → Scheduler
count_less j n s = record s {
  simult_exec_cnt = IntMap.put j (count_of j s.simult_exec_cnt -ℤ pos n) s.simult_exec_cnt;
}

-- The body of the loop of RescheduleJob: the scheduler, and whether there is a task to reschedule
unfoldable pub reschedule_one : WorkerJob → ℕ → Scheduler → Scheduler × Bool
unfolding is_in reaches_failed stop_workers remove_job decrement_job_execution get_num_tasks
reschedule_one w j s =
    let n = get_num_tasks j w in
    let tasks = tasks_for j (tasks_of j w.jobs) in
    let s' = count_less j n s in
    if not (is_in j s.jobs.order)
    then (s, false)
    else (if reaches_failed j s'
        then (remove_job j false failed_nodes_limit (stop_workers j s'), false)
        else (if (s.spec_of j).no_reschedule
            then (decrement_job_execution j (pos n) false s', false)
            else (
              record s' { need_reschedule = s'.need_reschedule ++ tasks },
              not (is_empty tasks),
            )))

unfoldable pub reschedule_each : WorkerJob → IntSet → Scheduler → Scheduler × Bool
unfolding reschedule_one
reschedule_each w [] s = (s, false)
reschedule_each w (j ∷ js) s =
    let (s', found) = reschedule_one w j s in
    let (s'', more) = reschedule_each w js s' in (s'', found || more)

-- RescheduleJob
unfoldable pub reschedule_job : WorkerJob → Scheduler → Scheduler × Bool
unfolding reschedule_each get_jobs
reschedule_job w s = reschedule_each w (get_jobs w) s

-- OnJobTimeout, and StopJob, which calls it
unfoldable pub stop_job : ℕ → Scheduler → Scheduler
unfolding is_in stop_workers remove_job
stop_job j s =
    if is_in j s.jobs.order
    then notify notify_all (remove_job j false timeout (stop_workers j s))
    else s

unfoldable pub stop_jobs : List ℕ → Scheduler → Scheduler
unfolding stop_job
stop_jobs [] s = s
stop_jobs (j ∷ js) s = stop_jobs js (stop_job j s)

-- StopJobGroup
unfoldable pub stop_job_group : ℤ → Scheduler → Scheduler
unfolding stop_jobs get_job_group
stop_job_group g s = stop_jobs (get_job_group g s) s

-- StopNamedJob
unfoldable pub stop_named_job : Text → Scheduler → Scheduler
unfolding stop_jobs jobs_by_name
stop_named_job n s = stop_jobs (jobs_by_name n s) s

-- StopAllJobs
unfoldable pub stop_all_jobs : Scheduler → Scheduler
unfolding stop_jobs
stop_all_jobs s =
    let s' = stop_jobs s.jobs.order s in
    record s' { notices = s'.notices ++ map (λ ip. stop_all ip) s'.nodes }

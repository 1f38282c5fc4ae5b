-- ===== src/Master/Scheduler/Completion.antt =====
-- What the scheduler does when tasks were sent, end or take too long: OnTaskSendCompletion,
-- OnTaskCompletion and OnTaskTimeout of master/scheduler.cpp. The running time of a task is only
-- logged.
use prun.Base.{ℕ, Bool, true, ◌&&◌, none, some, Text, if◌then◌else◌}
use prun.Base.Int.{pos}
use prun.Containers.TextSet
use prun.Master.WorkerJob.{
  WorkerTask, WorkerJob, new_job, add_task, delete_task, delete_job, has_task, get_total_num_tasks,
  get_job_id,
}
use prun.Master.FailedWorkers.{add}
use prun.Master.JobStore.{is_in}
use prun.Master.Scheduler.{
  Scheduler, notify, notify_all, stop_task, job_at, set_job, free_cpu, update_node_priority,
}
use prun.Master.Scheduler.Jobs.{decrement_job_execution}
use prun.Master.Scheduler.Stopping.{count_less, reschedule_job}

-- The error codes that the scheduler distinguishes
pub data ErrCode : Type 0 where
  no_error node_job_completion_not_found other_error : ErrCode

-- What OnTaskSendCompletion and OnTaskCompletion look up before they count a failure
abbrev pub knows : ℕ → Text → Scheduler → Bool
knows j ip s = TextSet.contains ip s.by_ip && is_in j s.jobs.order && TextSet.contains ip s.nodes

abbrev pub fail_at : ℕ → Text → Scheduler → Scheduler
fail_at j ip s = record s { failed = (add j ip s.failed).0 }

-- The worker's tasks of its first job are deleted: the name of the sent job is hidden by it.
unfoldable pub delete_first : WorkerJob → WorkerJob
unfolding get_job_id delete_job
delete_first w = elim (get_job_id w) [ none ↦ w | some j ↦ (delete_job j w).0 ]

-- FreeCPU and UpdateNodePriority
abbrev pub release_cpu : Text → ℕ → Scheduler → Scheduler
release_cpu ip n s = update_node_priority ip (free_cpu ip (pos n) s)

-- OnTaskSendCompletion of a failure, for the job of the sent tasks
unfoldable pub on_failed_sending : ℕ → WorkerJob → Text → Scheduler → Scheduler
unfolding add is_in update_node_priority reschedule_job get_total_num_tasks delete_first
on_failed_sending j w ip s =
    let s' = release_cpu ip (get_total_num_tasks w) (fail_at j ip s) in
    let r = (reschedule_job w s').0 in
    if knows j ip s && (add j ip s.failed).1
    then notify notify_all (set_job ip (delete_first (job_at ip r)) r)
    else s

-- OnTaskSendCompletion; no job has the id -1.
unfoldable pub on_task_send_completion : Bool → WorkerJob → Text → Scheduler → Scheduler
unfolding on_failed_sending get_job_id
on_task_send_completion ok w ip s =
    if ok then s else elim (get_job_id w) [ none ↦ s | some j ↦ on_failed_sending j w ip s ]

-- OnTaskCompletion without an error
unfoldable pub on_success : WorkerTask → Text → Scheduler → Scheduler
unfolding is_in delete_task update_node_priority decrement_job_execution
on_success t ip s =
    let (w, had) = delete_task t.job_id t.task_id (job_at ip s) in
    let s' = set_job ip w s in
    let done =
      decrement_job_execution t.job_id (pos 1) true (count_less t.job_id 1 (release_cpu ip 1 s')) in
    if TextSet.contains ip s.by_ip && is_in t.job_id s.jobs.order && had
    then (if TextSet.contains ip s.nodes then notify notify_all done else s')
    else s

-- OnTaskCompletion with an error other than NODE_JOB_COMPLETION_NOT_FOUND
unfoldable pub on_error : WorkerTask → Text → Scheduler → Scheduler
unfolding add is_in update_node_priority reschedule_job add_task delete_task
on_error t ip s =
    let s' = release_cpu ip 1 (fail_at t.job_id ip s) in
    let r = (reschedule_job (add_task t.job_id t.task_id new_job) s').0 in
    if knows t.job_id ip s && (add t.job_id ip s.failed).1
    then notify notify_all (set_job ip (delete_task t.job_id t.task_id (job_at ip r)).0 r)
    else s

-- OnTaskCompletion
unfoldable pub on_task_completion : ErrCode → WorkerTask → Text → Scheduler → Scheduler
unfolding on_success on_error
on_task_completion no_error t ip s = on_success t ip s
on_task_completion node_job_completion_not_found t ip s = s
on_task_completion other_error t ip s = on_error t ip s

-- OnTaskTimeout: NODE_JOB_TIMEOUT is another error.
unfoldable pub on_task_timeout : WorkerTask → Text → Scheduler → Scheduler
unfolding has_task on_task_completion
on_task_timeout t ip s =
    let stopped = notify (stop_task ip t.job_id t.task_id) s in
    if TextSet.contains ip s.by_ip && has_task t.job_id t.task_id (job_at ip s)
    then on_task_completion other_error t ip stopped
    else s

-- ===== src/Master/Scheduler/Completing.antt =====
-- The busy CPUs when a task ends well (OnTaskCompletion of master/scheduler.cpp).
use prun.Base.{ℕ, ◌+◌, ◌≡◌, sym, ap, ◌∙◌, true, Text, if◌then◌else◌}
use prun.Base.Int.{pos}
use prun.Containers.TextSet
use prun.Master.WorkerJob.{WorkerTask, WorkerJob, delete_task, get_total_num_tasks}
use prun.Master.WorkerJob.Tasks.{IsValid, has_task-delete_task}
use prun.Master.WorkerJob.Counts.{get_total_num_tasks-delete_task}
use prun.Master.Scheduler.{Scheduler, job_at, set_job}
use prun.Master.Scheduler.Jobs.{decrement_job_execution}
use prun.Master.Scheduler.Stopping.{count_less}
use prun.Master.Scheduler.Completion.{release_cpu}

-- The total after a task that is there is deleted
pub one_less :
    (j t : ℕ) (w : WorkerJob)
    → IsValid w
    → (delete_task j t w).1 ≡ true
    → get_total_num_tasks w ≡ get_total_num_tasks (delete_task j t w).0 + 1
one_less j t w v h =
    get_total_num_tasks-delete_task j t w v
    ∙ ap (λ b. get_total_num_tasks (delete_task j t w).0 + (if b then 1 else 0))
        (sym (has_task-delete_task j t j t w v).0 ∙ h)

-- The node after a success
abbrev done : WorkerTask → Text → Scheduler → Scheduler
done t ip s = decrement_job_execution t.job_id (pos 1) true (
    count_less t.job_id 1
      (release_cpu ip 1 (set_job ip (delete_task t.job_id t.task_id (job_at ip s)).0 s)))

-- ===== src/Master/Scheduler/Sending.antt =====
-- How the scheduler takes a job from the queue and gives tasks to a worker: OnNewJob,
-- CanTakeNewJob, PlanJobExecution and GetTaskToSend of master/scheduler.cpp.
use prun.Base.{
  ℕ, zero, suc, Bool, false, not, ◌&&◌, ◌||◌, Option, none, some, List, [], ◌∷◌, Text, leb,
  if◌then◌else◌,
}
use prun.Base.Int.{pos, ltb_ℤ, ◌+ℤ◌, pos_part}
use prun.Containers.IntSet
use prun.Containers.IntSet.{IntSet}
use prun.Containers.IntMap
use prun.Master.WorkerJob.{WorkerJob, plus, get_total_num_tasks, get_job_id}
use prun.Master.JobStore.{update}
use prun.Master.JobQueue.{pop_job}
use prun.Master.Scheduler.{
  Scheduler, notify_all, notify, is_available, job_at, set_job, alloc_cpu, get_num_free_cpu,
  count_of,
}
use prun.Master.Scheduler.Jobs.{add}
use prun.Master.Scheduler.Planning.{Plan, tasks_at, get_job_for_worker, get_num_planned_exec}

-- CanTakeNewJob: whether the first node by priority has a free CPU
unfoldable pub can_take_new_job : Scheduler → Bool
can_take_new_job s = elim s.priority [
  | [] ↦ false
  | ip ∷ ips ↦ ltb_ℤ (pos 0) (get_num_free_cpu ip s)
]

-- The tasks 0, 1, ... n - 1, added one by one
unfoldable pub insert_below : ℕ → IntSet → IntSet
insert_below zero q = q
insert_below (suc n) q = IntSet.insert n (insert_below n q)

-- PlanJobExecution for the job from the queue
unfoldable pub plan_job : ℕ → Scheduler → Scheduler
unfolding get_num_planned_exec insert_below add update
plan_job j s =
    let n = get_num_planned_exec (s.spec_of j) s in
    notify notify_all (
      add j n (record s {
        planned_exec = update s.planned_exec j n;
        tasks_to_send = IntMap.put j (insert_below (pos_part n) (tasks_at j s)) s.tasks_to_send;
      }))

-- PlanJobExecution
unfoldable pub plan_job_execution : Scheduler → Scheduler
unfolding pop_job plan_job
plan_job_execution s = elim (pop_job s.queue) [
  | none ↦ s
  | some (j, q) ↦ plan_job j (record s { queue = q })
]

-- OnNewJob
unfoldable pub on_new_job : Scheduler → Scheduler
unfolding can_take_new_job plan_job_execution
on_new_job s = let planned = plan_job_execution s in if can_take_new_job s then planned else s

-- `simultExecCnt_[ workerJob.GetJobId() ] += numTasks`
abbrev pub count_more : Option ℕ → ℕ → Scheduler → Scheduler
count_more none n s = s
count_more (some j) n s = record s {
  simult_exec_cnt = IntMap.put j (count_of j s.simult_exec_cnt +ℤ pos n) s.simult_exec_cnt;
}

-- The worker gets the planned tasks.
unfoldable pub give : Text → WorkerJob → Scheduler → Scheduler
unfolding plus get_total_num_tasks get_job_id
give ip w s =
    let n = get_total_num_tasks w in
    count_more (get_job_id w) n (alloc_cpu ip (pos n) (set_job ip (plus (job_at ip s) w) s))

-- Whether the loop of GetTaskToSend passes over a node
unfoldable pub is_passed : Text → Scheduler → Bool
unfolding is_available
is_passed ip s =
    not (ltb_ℤ (pos 0) (get_num_free_cpu ip s)) || not (is_available (s.worker_of ip).state)

-- What is planned for the worker at a node
abbrev pub plan_for : Text → Plan → Plan
plan_for ip p =
    get_job_for_worker ip (pos_part (get_num_free_cpu ip p.scheduler)) (record p { found = none })

-- The loop of GetTaskToSend: the plan, and the worker that gets it
unfoldable pub node_loop : List Text → Plan → Plan × Option Text
unfolding is_passed get_job_for_worker give get_total_num_tasks
node_loop [] p = (p, none)
node_loop (ip ∷ ips) p =
    let q = plan_for ip p in
    let passed = is_passed ip p.scheduler in
    let rest = node_loop ips (if passed then p else q) in
    if not passed && leb 1 (get_total_num_tasks q.planned)
    then (record q { scheduler = give ip q.planned q.scheduler }, some ip)
    else rest

-- GetTaskToSend, with the caller's planned tasks and job: these, the scheduler, and the worker that
-- gets the tasks. Without one the next job is planned.
unfoldable pub get_task_to_send : WorkerJob → Option ℕ → Scheduler → Plan × Option Text
unfolding node_loop on_new_job
get_task_to_send w job s =
    let p : Plan = record { planned = w; found = none; job = job; scheduler = s } in
    let (q, to) = node_loop s.priority p in
    elim to [
      | none ↦ (record q { scheduler = on_new_job q.scheduler }, none)
      | some ip ↦ (q, some ip)
    ]

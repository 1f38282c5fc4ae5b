-- ===== src/Master/Scheduler/Planning.antt =====
-- Which tasks a worker gets: CanAddTaskToWorker, GetReschedJobForWorker, GetJobForWorker and
-- GetNumPlannedExec of master/scheduler.cpp.
use prun.Base.{
  ℕ, ◌+◌, Bool, true, false, not, ◌&&◌, ◌||◌, Option, none, some, List, [], ◌∷◌, Text, ◌==◌, leb,
  if◌then◌else◌, is_empty,
}
use prun.Base.Int.{ℤ, pos, ltb_ℤ, ◌+ℤ◌}
use prun.Containers.IntSet
use prun.Containers.IntSet.{IntSet}
use prun.Containers.IntMap
use prun.Containers.IntMap.{IntMap}
use prun.Master.WorkerJob.{
  WorkerTask, WorkerJob, add_task, set_exclusive, get_total_num_tasks, get_num_tasks, get_num_jobs,
  get_job_id,
}
use prun.Master.FailedWorkers.{is_worker_failed_job}
use prun.Master.Permissions.{is_host_permitted, is_group_permitted, get_num_permitted_hosts}
use prun.Master.JobStore.{is_in}
use prun.Master.Scheduler.{JobSpec, Scheduler, job_at, increment_num_exec}

-- Whether the limit is set, and the number reaches it
abbrev pub reaches : ℤ → ℤ → Bool
reaches n limit = ltb_ℤ (pos 0) limit && not (ltb_ℤ n limit)

-- The exclusive case of CanAddTaskToWorker: the worker has another job
unfoldable pub is_occupied : ℕ → Bool → WorkerJob → Bool
unfolding get_num_jobs get_job_id
is_occupied j exclusive w =
    (exclusive || w.exclusive)
    && (leb 2 (get_num_jobs w) || elim (get_job_id w) [ none ↦ false | some i ↦ not (i == j) ])

-- The cluster case: a job without an entry in simultExecCnt_ is not limited
unfoldable pub reaches_cluster : ℕ → ℕ → ℤ → IntMap ℤ → Bool
reaches_cluster j planned limit running = elim (IntMap.find j running) [
  | none ↦ false
  | some n ↦ reaches (n +ℤ pos planned) limit
]

-- CanAddTaskToWorker
unfoldable pub can_add_task_to_worker : Text → WorkerJob → ℕ → Scheduler → Bool
unfolding is_occupied reaches_cluster get_num_tasks
can_add_task_to_worker ip planned j s =
    let spec = s.spec_of j in
    let w = job_at ip s in
    let n = get_num_tasks j w + get_num_tasks j planned in
    not (is_occupied j spec.exclusive w)
    && not (reaches (pos n) spec.max_worker_instances)
    && not
        (reaches_cluster j (get_num_tasks j planned) spec.max_cluster_instances s.simult_exec_cnt)
    && not (reaches (pos (s.history (some j) ip)) spec.max_exec_at_worker)
    && not (reaches (pos n) spec.max_exec_at_worker)

-- FindJobByJobId
abbrev pub find_job_by_job_id : ℕ → Scheduler → Bool
find_job_by_job_id j s = is_in j s.jobs.order

abbrev pub is_permitted : Text → ℕ → Scheduler → Bool
is_permitted ip j s =
    is_host_permitted (s.worker_of ip).host (s.spec_of j).permissions
    && is_group_permitted (s.worker_of ip).group (s.spec_of j).permissions

-- What the searches for a worker's tasks change: the planned job, whether a task to reschedule was
-- found and of which job, the job that the caller gets, and the scheduler.
pub record Plan : Type 0 where
  pub planned : WorkerJob
  pub found : Option ℕ
  pub job : Option ℕ
  pub scheduler : Scheduler

-- `job` gets each job that is looked up.
abbrev pub look_up : ℕ → Plan → Plan
look_up j p = if find_job_by_job_id j p.scheduler then record p { job = some j } else p

-- Whether the loop of GetReschedJobForWorker takes a task
unfoldable pub takes : Text → ℕ → Plan → Bool
unfolding can_add_task_to_worker is_in
takes ip j p =
    find_job_by_job_id j p.scheduler
    && can_add_task_to_worker ip p.planned j p.scheduler
    && elim p.found [
      | none ↦ not (is_worker_failed_job ip j p.scheduler.failed) && is_permitted ip j p.scheduler
      | some i ↦ j == i
    ]

-- plannedJob.AddTask, SetExclusive and IncrementNumExec
unfoldable pub take_first : Text → Option ℕ → ℕ → ℕ → Plan → Plan
unfolding add_task set_exclusive increment_num_exec
take_first ip k j t p = record p {
  planned = set_exclusive (p.scheduler.spec_of j).exclusive (add_task j t p.planned);
  scheduler = increment_num_exec k ip p.scheduler;
}

unfoldable pub take_resched : Text → ℕ → ℕ → Plan → Plan
unfolding add_task take_first
take_resched ip j t p = elim p.found [
  | none ↦ record (take_first ip (some j) j t p) { found = some j }
  | some i ↦ record p { planned = add_task i t p.planned }
]

-- The loop of GetReschedJobForWorker: the plan, and the tasks that stay
unfoldable pub resched_loop : Text → ℕ → List WorkerTask → Plan → Plan × List WorkerTask
unfolding takes take_resched get_total_num_tasks
resched_loop ip cpu [] p = (p, [])
resched_loop ip cpu (t ∷ ts) p =
    let q = look_up t.job_id p in
    let taken = takes ip t.job_id p in
    let (r, left) =
      resched_loop ip cpu ts (if taken then take_resched ip t.job_id t.task_id q else q) in
    if leb cpu (get_total_num_tasks p.planned)
    then (p, t ∷ ts)
    else (r, (if taken then left else t ∷ left))

-- GetReschedJobForWorker
unfoldable pub get_resched_job_for_worker : Text → ℕ → Plan → Plan
unfolding resched_loop
get_resched_job_for_worker ip cpu p =
    let (q, left) = resched_loop ip cpu p.scheduler.need_reschedule p in
    record q { scheduler = record q.scheduler { need_reschedule = left } }

-- The inner loop of GetJobForWorker: the plan, and the tasks that stay
unfoldable pub task_loop : Text → ℕ → Option ℕ → ℕ → IntSet → Plan → Plan × IntSet
unfolding take_first can_add_task_to_worker get_total_num_tasks
task_loop ip cpu k j [] p = (p, [])
task_loop ip cpu k j (t ∷ ts) p =
    let (r, left) = task_loop ip cpu k j ts (take_first ip k j t p) in
    if leb cpu (get_total_num_tasks p.planned)
      || not (can_add_task_to_worker ip p.planned j p.scheduler)
    then (p, t ∷ ts)
    else (r, left)

-- Whether the loop of GetJobForWorker stops at a job
unfoldable pub is_eligible : Text → Option ℕ → ℕ → Plan → Bool
unfolding can_add_task_to_worker
is_eligible ip k j p =
    let s = p.scheduler in
    not (IntSet.contains j s.jobs.sent)
    && elim p.found [ none ↦ true | some i ↦ elim k [ none ↦ false | some l ↦ l == j ] ]
    && not (is_worker_failed_job ip j s.failed)
    && can_add_task_to_worker ip p.planned j s
    && elim (IntMap.find j s.tasks_to_send) [ none ↦ false | some tasks ↦ not (is_empty tasks) ]
    && is_permitted ip j s

-- What is left of a job's tasks; without any, the job is sent completely
abbrev pub leave_tasks : ℕ → IntSet → Scheduler → Scheduler
leave_tasks j [] s = record s {
  tasks_to_send = IntMap.erase j s.tasks_to_send;
  jobs = record s.jobs { sent = IntSet.insert j s.jobs.sent };
}
leave_tasks j (t ∷ ts) s = record s { tasks_to_send = IntMap.put j (t ∷ ts) s.tasks_to_send }

abbrev pub tasks_at : ℕ → Scheduler → IntSet
tasks_at j s = elim (IntMap.find j s.tasks_to_send) [ none ↦ [] | some tasks ↦ tasks ]

-- The body of the loop of GetJobForWorker for the job at which it stops
unfoldable pub take_tasks : Text → ℕ → Option ℕ → ℕ → Plan → Plan
unfolding task_loop
take_tasks ip cpu k j p =
    let (q, left) = task_loop ip cpu k j (tasks_at j p.scheduler) p in
    record q { job = some j; scheduler = leave_tasks j left q.scheduler }

-- The loop of GetJobForWorker
unfoldable pub job_loop : Text → ℕ → Option ℕ → List ℕ → Plan → Plan
unfolding is_eligible take_tasks
job_loop ip cpu k [] p = p
job_loop ip cpu k (j ∷ js) p =
    let rest = job_loop ip cpu k js p in
    if is_eligible ip k j p then take_tasks ip cpu k j p else rest

-- GetJobForWorker: it has found tasks if any are planned
unfoldable pub get_job_for_worker : Text → ℕ → Plan → Plan
unfolding get_resched_job_for_worker job_loop get_job_id
get_job_for_worker ip cpu p =
    let q = get_resched_job_for_worker ip cpu p in
    job_loop ip cpu (get_job_id q.planned) q.scheduler.jobs.order q

-- GetNumPlannedExec
unfoldable pub get_num_planned_exec : JobSpec → Scheduler → ℤ
unfolding get_num_permitted_hosts
get_num_planned_exec spec s =
    let hosts = get_num_permitted_hosts spec.permissions in
    let n =
      if spec.per_host then (if hosts == 0 then s.total_workers else pos hosts) else s.total_cpu in
    if ltb_ℤ (pos 0) spec.num_exec then spec.num_exec else (if ltb_ℤ n (pos 1) then pos 1 else n)

-- ===== src/Master/Scheduler.antt =====
-- Scheduler of master/scheduler.h, with NodeState (master/node_state.h), ScheduledJobs and
-- JobExecHistory (master/scheduled_jobs.h): its state, and the smallest operations on it. The
-- children are its other functions and what is proved of them.
pub mod Jobs
pub mod Sending
pub mod Stopping
pub mod Completion
pub mod Hosts
pub mod Planning
pub mod Limits
pub mod Fitting
pub mod Rescheduling
pub mod Choosing
pub mod Frames
pub mod Searching
pub mod Bounds
pub mod Listing
pub mod Conserving
pub mod Counting
pub mod Machine
pub mod Refining
pub mod Forgetting
pub mod Accounting
pub mod Completing
pub mod Failing
pub mod Choices
pub mod Shrinking
mod Checks
use prun.Base.{
  ℕ, zero, suc, ◌+◌, Bool, true, false, not, ◌&&◌, ◌||◌, Option, none, some, List, [], ◌∷◌, ◌++◌,
  Text, text_eq, ◌==◌, if◌then◌else◌,
}
use prun.Base.Int.{ℤ, pos, negsuc, ◌+ℤ◌, ◌-ℤ◌}
use prun.Containers.IntSet
use prun.Containers.IntSet.{IntSet}
use prun.Containers.IntMap
use prun.Containers.IntMap.{IntMap}
use prun.Containers.TextSet
use prun.Containers.TextSet.{TextSet}
use prun.Master.WorkerJob.{WorkerTask, WorkerJob}
use prun.Master.FailedWorkers.{FailedWorkers}
use prun.Master.Permissions.{Permissions}
use prun.Master.JobStore.{Queue}

pub data WorkerState : Type 0 where
  not_avail ready exec disabled : WorkerState

-- The fields of a Worker that the scheduler uses
pub record Worker : Type 0 where
  pub host : Text
  pub group : Text
  pub state : WorkerState
  pub num_cpu : ℤ
  pub job : WorkerJob

-- The limits of a job, which do not change once it is queued. `per_host` is ExecUnitType::HOST.
pub record JobSpec : Type 0 where
  pub num_exec : ℤ
  pub per_host : Bool
  pub max_failed_nodes : ℤ
  pub max_cluster_instances : ℤ
  pub max_worker_instances : ℤ
  pub max_exec_at_worker : ℤ
  pub exclusive : Bool
  pub no_reschedule : Bool
  pub has_cron : Bool
  pub permissions : Permissions

pub data Status : Type 0 where
  success failure timeout failed_nodes_limit : Status

-- What the scheduler does outside itself: commands to workers, callbacks of jobs, calls of
-- IJobEventReceiver, IJobManager and ICronManager, and NotifyAll.
pub data Notice : Type 0 where
  stop_task : Text → ℕ → ℕ → Notice
  stop_all stop_previous : Text → Notice
  completed : ℕ → Status → Notice
  job_deleted push_job push_meta_job : ℕ → Notice
  release_job_name : Text → Notice
  add_command : ℕ → Text → Notice
  notify_all : Notice

-- ScheduledJobs: `order` is the right view of the bimap, which has its ids from the left view, and
-- `sent` are the jobs that are sent completely.
pub record ScheduledJobs : Type 0 where
  pub order : List ℕ
  pub sent : IntSet
  pub executions : IntMap ℤ
  pub names : List (Text × ℕ)

-- The nodes of nodeState_ are named by their IP, and `busy` are their busy CPUs; a worker object is
-- named by its IP too, and `by_ip` are those that the worker manager knows. `priority` is
-- nodePriority_ from its end. It is ordered by numbers of free CPUs that change while a node is in
-- it, so that the place of a node that is put in is not determined: `places` are the places of the
-- nodes in turn.
pub record Scheduler : Type 0 where
  pub queue : Queue
  pub spec_of : ℕ → JobSpec
  pub planned_exec : ℕ → ℤ
  pub group_cron : ℕ → Bool
  pub worker_of : Text → Worker
  pub by_ip : TextSet
  pub total_cpu : ℤ
  pub total_workers : ℤ
  pub nodes : TextSet
  pub busy : Text → ℤ
  pub priority : List Text
  pub places : ℕ → ℕ
  pub turn : ℕ
  pub failed : FailedWorkers
  pub jobs : ScheduledJobs
  pub tasks_to_send : IntMap IntSet
  pub need_reschedule : List WorkerTask
  pub simult_exec_cnt : IntMap ℤ
  pub history : Option ℕ → Text → ℕ
  pub notices : List Notice

abbrev pub notify : Notice → Scheduler → Scheduler
notify n s = record s { notices = s.notices ++ n ∷ [] }

-- A map from IPs, changed at one of them
unfoldable pub put_at {ℓ} : {A : Type ℓ} → Text → A → (Text → A) → Text → A
put_at k v f i = if text_eq k i then v else f i

-- IsAvailable
unfoldable pub is_available : WorkerState → Bool
is_available not_avail = false
is_available ready = true
is_available exec = true
is_available disabled = false

abbrev pub job_at : Text → Scheduler → WorkerJob
job_at ip s = (s.worker_of ip).job

abbrev pub set_job : Text → WorkerJob → Scheduler → Scheduler
set_job ip w s = record s {
  worker_of = put_at ip (record (s.worker_of ip) { job = w }) s.worker_of;
}

-- AllocCPU
abbrev pub alloc_cpu : Text → ℤ → Scheduler → Scheduler
alloc_cpu ip n s = record s { busy = put_at ip (s.busy ip +ℤ n) s.busy }

-- FreeCPU
abbrev pub free_cpu : Text → ℤ → Scheduler → Scheduler
free_cpu ip n s = record s { busy = put_at ip (s.busy ip -ℤ n) s.busy }

-- GetNumFreeCPU
abbrev pub get_num_free_cpu : Text → Scheduler → ℤ
get_num_free_cpu ip s = (s.worker_of ip).num_cpu -ℤ s.busy ip

unfoldable pub insert_at {ℓ} : {A : Type ℓ} → ℕ → A → List A → List A
insert_at zero a l = a ∷ l
insert_at (suc n) a [] = a ∷ []
insert_at (suc n) a (x ∷ l) = x ∷ insert_at n a l

-- UpdateNodePriority, of a node that is there
unfoldable pub update_node_priority : Text → Scheduler → Scheduler
unfolding insert_at
update_node_priority ip s = record s {
  priority = insert_at (s.places s.turn) ip (TextSet.erase ip s.priority);
  turn = suc s.turn;
}

-- operator[] of simultExecCnt_: an absent key counts 0
abbrev pub count_of : ℕ → IntMap ℤ → ℤ
count_of j m = elim (IntMap.find j m) [ none ↦ pos 0 | some n ↦ n ]

-- Job ids in the history; `none` is the id -1.
abbrev pub same_id : Option ℕ → Option ℕ → Bool
same_id none none = true
same_id none (some b) = false
same_id (some a) none = false
same_id (some a) (some b) = a == b

-- JobExecHistory::IncrementNumExec
unfoldable pub increment_num_exec : Option ℕ → Text → Scheduler → Scheduler
increment_num_exec k ip s = record s {
  history =
      λ i. if same_id k i then put_at ip (suc (s.history k ip)) (s.history k) else s.history i;
}

-- JobExecHistory::RemoveJob
unfoldable pub remove_history : ℕ → Scheduler → Scheduler
remove_history j s = record s {
  history = λ i. if same_id (some j) i then (λ ip. 0) else s.history i;
}

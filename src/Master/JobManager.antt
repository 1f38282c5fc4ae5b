-- ===== src/Master/JobManager.antt =====
-- JobManager of master/job_manager.h and master/job_manager.cpp, over the job queue and the deadlines:
-- the ids it gives, the names it keeps, and what it does with a new job. A job gets its number in
-- the queue when it gets its id, a group the number of its push; the ids and numbers are those of an
-- int64_t that does not overflow.
pub mod Descriptions
pub mod Graphs
pub mod Building
pub mod Ids
pub mod Fresh
pub mod Arriving
pub mod Restoring
pub mod Cycles
pub mod Making
pub mod Files
pub mod Sources
pub mod Deleting
pub mod Watching
pub mod Releasing
pub mod Naming
pub mod Filling
pub mod Starting
pub mod Samples
mod Checks
use prun.Base.{
  ℕ, suc, zero, ◌+◌, Bool, true, false, not, ◌&&◌, ◌||◌, Option, none, some, List, [], ◌∷◌, ◌++◌,
  Text, text_eq, codes, ltb, leb, is_empty, length, ◌==◌, if◌then◌else◌,
}
use prun.Base.Int.{ℤ, pos, negsuc}
use prun.Containers.TextSet
use prun.Containers.TextSet.{TextSet}
use prun.Containers.IntSet.{IntSet}
use prun.Master.JobStore.{Job, Group, Event, Queue, update, name_released}
use prun.Master.JobQueue
use prun.Master.Scheduler.{JobSpec}
use prun.Master.Timeouts.{TimeToCallback, push_job_queue, push}
use prun.Master.JobManager.Descriptions.{Ptree, Outside, NewJob, create_job}
use prun.Master.JobManager.Graphs.{MetaJob, create_meta_job}

-- What the manager calls: IJobEventReceiver::OnJobAdd and OnJobDelete, IScheduler::OnNewJob,
-- ICronManager::PushJob and PushMetaJob; what the queue does; and CronManager's calls of OnJobAdd,
-- with a name, and of BuildAndPushJob
pub data Call : Type 0 where
  job_added : ℕ → Text → Call
  name_deleted : Text → Call
  new_job : Call
  cron_job : NewJob → Call
  cron_meta_job : MetaJob → Call
  by_queue : Event → Call
  name_added : Text → Text → Call
  build : Text → Call

pub record Manager : Type 0 where
  pub queue : Queue
  pub spec_of : ℕ → JobSpec
  pub callbacks : TimeToCallback
  pub num_job_groups : ℕ
  pub job_id : ℕ
  pub job_names : TextSet
  pub jobs_dir : Text
  pub calls : List Call

abbrev pub call : Call → Manager → Manager
call c m = record m { calls = m.calls ++ c ∷ [] }

-- RegisterJobName; its result is not used.
unfoldable pub register_job_name : Text → Manager → Manager
unfolding TextSet.insert
register_job_name n m =
    if is_empty n then m else record m { job_names = (TextSet.insert n m.job_names).0 }

-- ReleaseJobName
unfoldable pub release_job_name : Text → Manager → Manager × Bool
unfolding TextSet.erase TextSet.contains
release_job_name n m =
    let erased = (not (is_empty n) && TextSet.contains n m.job_names) in
    if erased
    then (call (name_deleted n) (record m { job_names = TextSet.erase n m.job_names }), true)
    else (m, false)

-- What the queue calls during one of its operations: ReleaseJobName is the manager's own.
unfoldable pub settle_one : Event → Manager → Manager
unfolding release_job_name
settle_one (name_released n) m = (release_job_name n m).0
settle_one e m = call (by_queue e) m

unfoldable pub settle_each : List Event → Manager → Manager
unfolding settle_one
settle_each [] m = m
settle_each (e ∷ es) m = settle_each es (settle_one e m)

-- An operation of the queue, with the calls that it makes
abbrev pub with_queue : Queue → Manager → Manager
with_queue q m = settle_each q.events (record m { queue = record q { events = [] } })

-- A new job in the queue's store, with its id and, if it has one, its group
abbrev pub to_job : ℕ → NewJob → Job
to_job g j = record {
  priority = j.priority;
  group_id = negsuc 0;
  num_depends = j.num_depends;
  name = j.name;
  job_group = if j.in_group then some g else none;
  vertex = j.vertex;
}

-- job->SetJobId( id ), where the job has the group `g`, if any
abbrev pub set_job_id : ℕ → ℕ → NewJob → Manager → Manager
set_job_id g i j m = record m {
  queue = record m.queue { job_of = update m.queue.job_of i (to_job g j) };
  spec_of = update m.spec_of i j.spec;
}

-- timeoutManager_->PushJobQueue( id, timeout ), at the time `now` in ticks, of which a second has
-- `second`
abbrev pub push_timeout : ℕ → ℕ → ℕ → NewJob → Manager → Manager
push_timeout second now i j m = record m {
  callbacks = push_job_queue second now i j.queue_timeout m.callbacks;
}

-- The tail of PushJob and of BuildAndPushJob
abbrev pub to_queue : ℕ → Manager → Manager
to_queue i m = record (with_queue (JobQueue.push_job i (pos m.num_job_groups) m.queue) m) {
  num_job_groups = m.num_job_groups + 1;
}

-- PushJob
unfoldable pub push_job : ℕ → ℕ → NewJob → Manager → Manager
unfolding register_job_name update JobQueue.push_job settle_each push
push_job second now j m =
    let i = m.job_id in
    let m' : Manager =
      set_job_id m.num_job_groups i j (record (register_job_name j.name m) { job_id = i + 1 }) in
    push_timeout second now i j (call new_job (call (job_added i j.description) (to_queue i m')))

-- The group object of a meta job, with the ids of its jobs
abbrev pub to_group : MetaJob → List ℕ → Group
to_group mj ids = record { edges = mj.edges; index_to_job = ids; num_completed = 0; name = mj.name }

abbrev pub set_group : ℕ → MetaJob → List ℕ → Manager → Manager
set_group g mj ids m = record m {
  queue = record m.queue { group_of = update m.queue.group_of g (to_group mj ids) };
}

unfoldable pub ids_from : ℕ → List NewJob → List ℕ
ids_from i [] = []
ids_from i (j ∷ js) = i ∷ ids_from (suc i) js

-- The loop of PushJobs: names and ids
unfoldable pub give_ids : ℕ → List NewJob → Manager → Manager
unfolding register_job_name update
give_ids g [] m = m
give_ids g (j ∷ js) m =
    give_ids g js
      (set_job_id g m.job_id j (record (register_job_name j.name m) { job_id = m.job_id + 1 }))

-- jobs_->PushJobs( jobs, groupId ), with a list that is not empty
abbrev pub all_to_queue : ℕ → List ℕ → Manager → Manager
all_to_queue g [] m = m
all_to_queue g (h ∷ hs) m = with_queue (JobQueue.push_jobs h hs (pos g) m.queue) m

-- The loop over the jobs with their queue timeouts
unfoldable pub push_timeouts : ℕ → ℕ → ℕ → List NewJob → Manager → Manager
unfolding push
push_timeouts second now i [] m = m
push_timeouts second now i (j ∷ js) m =
    push_timeouts second now (suc i) js (push_timeout second now i j m)

abbrev pub add_first : ℕ → List NewJob → Manager → Manager
add_first i [] m = m
add_first i (j ∷ js) m = call (job_added i j.description) m

-- PushJobs, of the jobs of one meta job
unfoldable pub push_jobs : ℕ → ℕ → MetaJob → Manager → Manager
unfolding give_ids update ids_from JobQueue.push_jobs settle_each push_timeouts
push_jobs second now mj m =
    let i = m.job_id in
    let g = m.num_job_groups in
    let ids = ids_from i mj.jobs in
    let m' : Manager =
      give_ids g mj.jobs (set_group g mj ids (record m { num_job_groups = g + 1 })) in
    if is_empty mj.jobs
    then m
    else push_timeouts second now i mj.jobs
        (call new_job (add_first i mj.jobs (all_to_queue g ids m')))

-- GetJobById
abbrev pub get_job_by_id : ℕ → Manager → Option ℕ
get_job_by_id i m = JobQueue.get_job_by_id i m.queue

-- DeleteJob
unfoldable pub delete_job : ℕ → Manager → Manager × Bool
unfolding JobQueue.delete_job settle_each
delete_job i m = let (q, deleted) = JobQueue.delete_job i m.queue in (with_queue q m, deleted)

-- DeleteJobGroup
unfoldable pub delete_job_group : ℤ → Manager → Manager × Bool
unfolding JobQueue.delete_job_group settle_each
delete_job_group g m =
    let (q, deleted) = JobQueue.delete_job_group g m.queue in (with_queue q m, deleted)

unfoldable pub delete_each : List ℕ → Manager → Manager
unfolding delete_job
delete_each [] m = m
delete_each (h ∷ hs) m = delete_each hs (delete_job h m).0

-- DeleteNamedJob: its set keeps the jobs while it runs.
unfoldable pub delete_named_job : Text → Manager → Manager × Bool
unfolding delete_each JobQueue.get_jobs_by_name
delete_named_job n m =
    let hs = JobQueue.get_jobs_by_name n m.queue.names in
    let m' = delete_each hs (record m { queue = JobQueue.holding hs m.queue }) in
    (record m' { queue = JobQueue.released m.queue.held m'.queue }, not (is_empty hs))

-- DeleteAllJobs, and Shutdown
unfoldable pub delete_all_jobs : Manager → Manager
unfolding JobQueue.clear settle_each
delete_all_jobs m = with_queue (JobQueue.clear m.queue) m

-- PopJob
unfoldable pub pop_job : Manager → Option (ℕ × Manager)
unfolding JobQueue.pop_job settle_each
pop_job m = elim (JobQueue.pop_job m.queue) [ none ↦ none | some (h, q) ↦ some (h, with_queue q m) ]

-- OnJobDependenciesResolved
unfoldable pub on_job_dependencies_resolved : ℕ → Manager → Manager
unfolding JobQueue.on_job_dependencies_resolved settle_each
on_job_dependencies_resolved h m = with_queue (JobQueue.on_job_dependencies_resolved h m.queue) m

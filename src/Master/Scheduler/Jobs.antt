-- ===== src/Master/Scheduler/Jobs.antt =====
-- ScheduledJobs of master/scheduled_jobs.h, with Scheduler::OnRemoveJob, its callback.
use prun.Base.{
  ℕ, Bool, false, ◌&&◌, Option, none, some, List, [], ◌∷◌, ◌++◌, is_empty, length, Text,
  if◌then◌else◌,
}
use prun.Base.Int.{ℤ, pos, negsuc, ltb_ℤ, ◌-ℤ◌}
use prun.Containers.IntSet
use prun.Containers.IntSet.{IntSet}
use prun.Containers.IntMap
use prun.Master.FailedWorkers.{delete}
use prun.Master.JobStore.{behind, push_heap, is_in, remove}
use prun.Master.JobQueue.{
  erase_name, release_meta_job_name, on_job_completion, get_jobs_by_name, group_name,
}
use prun.Master.Scheduler.{
  Status, success, failure, timeout, Scheduler, completed, job_deleted, push_job, push_meta_job,
  release_job_name, notify, remove_history,
}

abbrev pub add_job_name : Text → ℕ → List (Text × ℕ) → List (Text × ℕ)
add_job_name n j l = if is_empty n then l else l ++ (n, j) ∷ []

-- The insertion into the bimap, which leaves an id that is there
unfoldable pub insert_job : ℕ → Scheduler → List ℕ
unfolding push_heap is_in
insert_job j s =
    let l = s.jobs.order in if is_in j l then l else push_heap (behind s.queue.job_of) j l

-- Add
unfoldable pub add : ℕ → ℤ → Scheduler → Scheduler
unfolding insert_job
add j n s =
    let job = s.queue.job_of j in
    record s {
      jobs = record s.jobs {
        order = insert_job j s;
        executions = IntMap.put j n s.jobs.executions;
        names =
            add_job_name (group_name job.job_group s.queue) j
              (add_job_name job.name j s.jobs.names);
      };
    }

-- OnRemoveJob
unfoldable pub on_remove_job : ℕ → Scheduler → Scheduler
unfolding remove_history delete
on_remove_job j s =
    let s' = remove_history j s in
    notify (job_deleted j) (record s' {
      simult_exec_cnt = IntMap.erase j s'.simult_exec_cnt;
      failed = (delete j s'.failed).0;
    })

-- Whether the job, or its group, runs again later: the cron manager gets it, or its name is free.
abbrev pub release_one : Bool → ℕ → Scheduler → Scheduler
release_one again j s =
    if again then notify (push_job j) s else notify (release_job_name (s.queue.job_of j).name) s

abbrev pub release_group : Bool → ℕ → Scheduler → Scheduler
release_group again k s =
    if again
    then notify (push_meta_job k) s
    else notify (release_job_name (s.queue.group_of k).name) s

abbrev pub set_names : List (Text × ℕ) → Scheduler → Scheduler
set_names l s = record s { jobs = record s.jobs { names = l } }

-- ReleaseMetaJobName and ReleaseJobGroup, with what the last job of a group does. Who else points
-- to the job is not in this state, so that it stays among the held jobs of the queue.
unfoldable pub leave_group : ℕ → Bool → ℕ → Scheduler → Scheduler
unfolding release_meta_job_name on_job_completion
leave_group j ok k s =
    let name = (s.queue.group_of k).name in
    let (q, last) = on_job_completion k (s.queue.job_of j).vertex s.queue in
    let s' = record (set_names (release_meta_job_name name j s.jobs.names) s) { queue = q } in
    if last then release_group (ok && s.group_cron k) k s' else s'

abbrev pub release_from : Option ℕ → ℕ → Bool → Scheduler → Scheduler
release_from none j ok s = release_one (ok && (s.spec_of j).has_cron) j s
release_from (some k) j ok s = leave_group j ok k s

-- nameToJob_.erase( job->GetName() ), of every entry of the name
unfoldable pub forget_name : ℕ → Scheduler → Scheduler
unfolding erase_name
forget_name j s =
    let name = (s.queue.job_of j).name in
    if is_empty name then s else set_names (erase_name name s.jobs.names) s

-- ReleaseJob
unfoldable pub release_job : ℕ → Bool → Scheduler → Scheduler
unfolding forget_name leave_group
release_job j ok s = release_from (s.queue.job_of j).job_group j ok (forget_name j s)

-- The erasure from the bimap, with the state of the job
abbrev pub erase_job : ℕ → Scheduler → Scheduler
erase_job j s = record s {
  jobs = record s.jobs { order = remove j s.jobs.order; sent = IntSet.erase j s.jobs.sent };
}

-- The first lines of RemoveJob
abbrev pub drop_job : ℕ → Scheduler → Scheduler
drop_job j s =
    on_remove_job j
      (record s { jobs = record s.jobs { executions = IntMap.erase j s.jobs.executions } })

-- The rest of RemoveJob, with RunJobCallback, for a job that is there
abbrev pub finish_job : ℕ → Bool → Status → Scheduler → Scheduler
finish_job j ok st s = erase_job j (release_job j ok (notify (completed j st) s))

-- RemoveJob
unfoldable pub remove_job : ℕ → Bool → Status → Scheduler → Scheduler
unfolding on_remove_job is_in release_job remove
remove_job j ok st s =
    let s' = drop_job j s in if is_in j s'.jobs.order then finish_job j ok st s' else s'

abbrev pub set_executions : ℕ → ℤ → Scheduler → Scheduler
set_executions j n s = record s {
  jobs = record s.jobs { executions = IntMap.put j n s.jobs.executions };
}

-- DecrementJobExecution
unfoldable pub decrement_job_execution : ℕ → ℤ → Bool → Scheduler → Scheduler
unfolding remove_job
decrement_job_execution j n ok s = elim (IntMap.find j s.jobs.executions) [
  | none ↦ s
  | some m ↦
      let s' = set_executions j (m -ℤ n) s in
      if ltb_ℤ (m -ℤ n) (pos 1) then remove_job j ok (if ok then success else failure) s' else s'
]

-- The order of the left view
unfoldable pub ids_of : List ℕ → IntSet
ids_of [] = []
ids_of (j ∷ js) = IntSet.insert j (ids_of js)

unfoldable pub remove_each : IntSet → Scheduler → Scheduler
unfolding remove_job
remove_each [] s = s
remove_each (j ∷ js) s = remove_each js (remove_job j false timeout s)

-- Clear
unfoldable pub clear : Scheduler → Scheduler
unfolding ids_of remove_each
clear s = remove_each (ids_of s.jobs.order) s

unfoldable pub in_group : ℤ → IntSet → Scheduler → List ℕ
in_group g [] s = []
in_group g (j ∷ js) s =
    let rest = in_group g js s in
    let i = (s.queue.job_of j).group_id in
    if ltb_ℤ i g then rest else (if ltb_ℤ g i then rest else j ∷ rest)

-- GetJobGroup
unfoldable pub get_job_group : ℤ → Scheduler → List ℕ
unfolding in_group ids_of
get_job_group g s = in_group g (ids_of s.jobs.order) s

-- GetJobsByName
unfoldable pub jobs_by_name : Text → Scheduler → IntSet
unfolding get_jobs_by_name
jobs_by_name n s = get_jobs_by_name n s.jobs.names

-- GetNumExec
unfoldable pub get_num_exec : ℕ → Scheduler → ℤ
get_num_exec j s = elim (IntMap.find j s.jobs.executions) [ none ↦ negsuc 0 | some n ↦ n ]

-- GetNumJobs
abbrev pub get_num_jobs : Scheduler → ℕ
get_num_jobs s = length s.jobs.order

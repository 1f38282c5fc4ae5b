-- ===== src/Master/WorkerJob.antt =====
-- WorkerTask and WorkerJob of master/worker.h and master/worker.cpp: the tasks planned for, or
-- running on, a worker.
pub mod Tasks
pub mod Sums
pub mod Counts
use prun.Base.{
  ℕ, zero, suc, ◌+◌, Bool, true, false, ◌&&◌, Option, none, some, List, [], ◌∷◌, ◌++◌, map, length,
  is_empty, if◌then◌else◌,
}
use prun.Containers.IntSet
use prun.Containers.IntSet.{IntSet}
use prun.Containers.IntMap
use prun.Containers.IntMap.{IntMap}

pub record WorkerTask : Type 0 where
  pub job_id : ℕ
  pub task_id : ℕ

pub record WorkerJob : Type 0 where
  pub jobs : IntMap IntSet
  pub exclusive : Bool

-- `jobs_[ jobId ]`: an absent key gets an empty set
abbrev pub tasks_of : ℕ → IntMap IntSet → IntSet
tasks_of j m = elim (IntMap.find j m) [ none ↦ [] | some s ↦ s ]

abbrev pub new_job : WorkerJob
new_job = record { jobs = []; exclusive = false }

unfoldable pub add_task : ℕ → ℕ → WorkerJob → WorkerJob
add_task j t w = record w { jobs = IntMap.put j (IntSet.insert t (tasks_of j w.jobs)) w.jobs }

-- The flag goes with the last job.
abbrev pub without_jobs : IntMap IntSet → Bool → WorkerJob
without_jobs m e = record { jobs = m; exclusive = (if e && is_empty m then false else e) }

unfoldable pub delete_task : ℕ → ℕ → WorkerJob → WorkerJob × Bool
delete_task j t w = elim (IntMap.find j w.jobs) [
  | none ↦ (w, false)
  | some tasks ↦
      let left = IntSet.erase t tasks in
      if IntSet.contains t tasks
      then (
        (if is_empty left
            then without_jobs (IntMap.erase j w.jobs) w.exclusive
            else record w { jobs = IntMap.put j left w.jobs }),
        true,
      )
      else (w, false)
]

unfoldable pub delete_job : ℕ → WorkerJob → WorkerJob × Bool
delete_job j w = elim (IntMap.find j w.jobs) [
  | none ↦ (w, false)
  | some tasks ↦ (without_jobs (IntMap.erase j w.jobs) w.exclusive, true)
]

unfoldable pub has_task : ℕ → ℕ → WorkerJob → Bool
has_task j t w = elim (IntMap.find j w.jobs) [ none ↦ false | some tasks ↦ IntSet.contains t tasks ]

unfoldable pub has_job : ℕ → WorkerJob → Bool
has_job j w = elim (IntMap.find j w.jobs) [ none ↦ false | some tasks ↦ true ]

-- GetTasks( jobId, tasks ): the tasks that the out parameter gets, if any
unfoldable pub get_tasks : ℕ → WorkerJob → Option IntSet
get_tasks j w = IntMap.find j w.jobs

abbrev pub tasks_for : ℕ → IntSet → List WorkerTask
tasks_for j s = map (λ t. record { job_id = j; task_id = t }) s

unfoldable pub all_tasks : IntMap IntSet → List WorkerTask
all_tasks [] = []
all_tasks ((j, s) ∷ m) = tasks_for j s ++ all_tasks m

-- GetTasks( tasks )
unfoldable pub get_all_tasks : WorkerJob → List WorkerTask
unfolding all_tasks
get_all_tasks w = all_tasks w.jobs

-- GetJobs( jobs )
unfoldable pub get_jobs : WorkerJob → IntSet
get_jobs w = map (λ e. e.0) w.jobs

-- GetJobId(): the least job id; `none` is its -1
unfoldable pub get_job_id : WorkerJob → Option ℕ
get_job_id w = elim w.jobs [ [] ↦ none | (j, s) ∷ m ↦ some j ]

unfoldable pub get_num_jobs : WorkerJob → ℕ
get_num_jobs w = length w.jobs

unfoldable pub total : IntMap IntSet → ℕ
total [] = 0
total ((j, s) ∷ m) = length s + total m

unfoldable pub get_total_num_tasks : WorkerJob → ℕ
unfolding total
get_total_num_tasks w = total w.jobs

unfoldable pub get_num_tasks : ℕ → WorkerJob → ℕ
get_num_tasks j w = length (tasks_of j w.jobs)

unfoldable pub set_exclusive : Bool → WorkerJob → WorkerJob
set_exclusive e w = record w { exclusive = e }

unfoldable pub add_tasks : List WorkerTask → WorkerJob → WorkerJob
add_tasks [] w = w
add_tasks (t ∷ ts) w = add_tasks ts (add_task t.job_id t.task_id w)

-- operator+=
unfoldable pub plus : WorkerJob → WorkerJob → WorkerJob
unfolding get_all_tasks
plus w v =
    let sum = add_tasks (get_all_tasks v) w in if v.exclusive then set_exclusive true sum else sum

unfoldable pub reset : WorkerJob → WorkerJob
reset w = new_job

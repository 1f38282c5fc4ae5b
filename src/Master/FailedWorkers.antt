-- ===== src/Master/FailedWorkers.antt =====
-- FailedWorkers of master/failed_workers.h: for each job the addresses of the workers that failed it.
pub mod Laws
use prun.Base.{ℕ, Bool, true, false, Option, none, some, List, [], ◌∷◌, length, Text}
use prun.Containers.IntSet.{IntSet}
use prun.Containers.IntMap
use prun.Containers.IntMap.{IntMap}
use prun.Containers.TextSet
use prun.Containers.TextSet.{TextSet}
use prun.Master.WorkerJob.{WorkerJob, get_jobs}

pub record FailedWorkers : Type 0 where
  pub failed : IntMap TextSet

-- `failedWorkers_[ jobId ]`
unfoldable pub workers_of : ℕ → IntMap TextSet → TextSet
workers_of j m = elim (IntMap.find j m) [ none ↦ [] | some s ↦ s ]

-- Add( jobId, hostIP )
unfoldable pub add : ℕ → Text → FailedWorkers → FailedWorkers × Bool
add j ip f =
    let (s, is_new) = TextSet.insert ip (workers_of j f.failed) in
    (record { failed = IntMap.put j s f.failed }, is_new)

unfoldable pub add_each : IntSet → Text → FailedWorkers → FailedWorkers
add_each [] ip f = f
add_each (j ∷ js) ip f = add_each js ip (add j ip f).0

-- Add( workerJob, hostIP )
unfoldable pub add_jobs : WorkerJob → Text → FailedWorkers → FailedWorkers
add_jobs w ip f = add_each (get_jobs w) ip f

unfoldable pub delete : ℕ → FailedWorkers → FailedWorkers × Bool
delete j f = elim (IntMap.find j f.failed) [
  | none ↦ (f, false)
  | some s ↦ (record { failed = IntMap.erase j f.failed }, true)
]

unfoldable pub is_worker_failed_job : Text → ℕ → FailedWorkers → Bool
is_worker_failed_job ip j f = elim (IntMap.find j f.failed) [
  | none ↦ false
  | some ips ↦ TextSet.contains ip ips
]

unfoldable pub get_failed_nodes_cnt : ℕ → FailedWorkers → ℕ
get_failed_nodes_cnt j f = elim (IntMap.find j f.failed) [ none ↦ 0 | some ips ↦ length ips ]

unfoldable pub get_failed_jobs_cnt : FailedWorkers → ℕ
get_failed_jobs_cnt f = length f.failed

-- ===== src/Master/JobQueue/Reaching.antt =====
-- The queues that the calls of JobQueue (master/job.cpp) can lead to, and what PopJob returns in them.
use prun.Base.{ℕ, ◌≡◌, false, some, List, ◌∷◌}
use prun.Base.Int.{ℤ}
use prun.Master.JobStore.{Job, Group, Queue, update, is_in}
use prun.Master.JobQueue.{
  pop_job, push_job, push_jobs, on_job_dependencies_resolved, on_job_completion, delete_job,
  delete_job_group, clear,
}
use prun.Master.JobQueue.Pushing.{AreFresh}

-- One call; what is pushed or made anew is not in the heap. `make` and `group` are the setters of a
-- job and of a group before they are pushed.
pub data Step (q : Queue) : Queue → Type 0 where
  make :
      (h : ℕ) (j : Job)
      → is_in h q.jobs ≡ false
      → Step q (record q { job_of = update q.job_of h j })
  group : (k : ℕ) (g : Group) → Step q (record q { group_of = update q.group_of k g })
  push : (h : ℕ) (g : ℤ) → is_in h q.jobs ≡ false → Step q (push_job h g q)
  push_all : (h : ℕ) (hs : List ℕ) (g : ℤ) → AreFresh (h ∷ hs) q.jobs → Step q (push_jobs h hs g q)
  pop : {r : Queue} (h : ℕ) → pop_job q ≡ some (h, r) → Step q r
  resolved : (h : ℕ) → Step q (on_job_dependencies_resolved h q)
  completed : (k v : ℕ) → Step q (on_job_completion k v q).0
  delete : (h : ℕ) → Step q (delete_job h q).0
  delete_all_of : (g : ℤ) → Step q (delete_job_group g q).0
  delete_all : Step q (clear q)

pub data Reach (q : Queue) : Queue → Type 0 where
  here : Reach q q
  next : {r s : Queue} → Reach q r → Step r s → Reach q s

-- ===== src/Master/Scheduler/Limits.antt =====
-- The limits that CanAddTaskToWorker (master/scheduler.cpp) checks, and what it means that planned
-- tasks fit.
use prun.Base.{
  ℕ, ◌+◌, ◌≤◌, ◌≡◌, refl, sym, ◌∙◌, Bool, true, false, not, ◌&&◌, Option, none, some, [], ◌∷◌, Text,
  length, arith, ◌⊎◌,
}
use prun.Base.Int.{+ℤ_parts, ℤ, pos, ltb_ℤ, ◌+ℤ◌}
use prun.Containers.IntSet
use prun.Containers.IntSet.{IntSet}
use prun.Containers.IntMap
use prun.Containers.IntMap.{IntMap}
use prun.Master.WorkerJob.{WorkerJob, get_num_tasks}
use prun.Master.FailedWorkers.{is_worker_failed_job}
use prun.Master.Scheduler.{Scheduler, job_at}
use prun.Master.Scheduler.Planning.{
  reaches, is_occupied, reaches_cluster, can_add_task_to_worker, is_permitted,
}

-- Whether the limit is set, and the number is above it
abbrev pub exceeds : ℤ → ℤ → Bool
exceeds n limit = ltb_ℤ (pos 0) limit && ltb_ℤ limit n

-- The worker may have `n` tasks of this job in addition to those it has. The limit for the cluster
-- counts only for a job with an entry in simultExecCnt_, which a job gets with its first tasks.
pub record IsAllowed (ip : Text) (j n : ℕ) (s : Scheduler) : Type 0 where
  pub not_failed : is_worker_failed_job ip j s.failed ≡ false
  pub permitted : is_permitted ip j s ≡ true
  pub at_worker :
      exceeds (pos (get_num_tasks j (job_at ip s) + n)) (s.spec_of j).max_worker_instances ≡ false
  pub at_cluster :
      (k : ℤ)
      → IntMap.find j s.simult_exec_cnt ≡ some k
      → exceeds (k +ℤ pos n) (s.spec_of j).max_cluster_instances ≡ false
  pub executions :
      exceeds (pos (get_num_tasks j (job_at ip s) + n)) (s.spec_of j).max_exec_at_worker ≡ false
  pub alone : is_occupied j (s.spec_of j).exclusive (job_at ip s) ≡ false

-- The planned tasks are those of one job, and the worker may have them.
pub record Planned (ip : Text) (cpu j : ℕ) (ts : IntSet) (w : WorkerJob) (s : Scheduler)
    : Type 0 where
  pub jobs : w.jobs ≡ (j, ts) ∷ []
  pub ascending : IntSet.Ascending ts
  pub not_empty : 1 ≤ length ts
  pub within : length ts ≤ cpu
  pub allowed : IsAllowed ip j (length ts) s

pub data Fits (ip : Text) (cpu : ℕ) (w : WorkerJob) (s : Scheduler) : Type 0 where
  nothing : w.jobs ≡ [] → Fits ip cpu w s
  tasks : (j : ℕ) (ts : IntSet) → Planned ip cpu j ts w s → Fits ip cpu w s

-- The same in GetReschedJobForWorker, where the planned job is the one found
pub data Found (ip : Text) (cpu : ℕ) (o : Option ℕ) (w : WorkerJob) (s : Scheduler) : Type 0 where
  none_yet : w.jobs ≡ [] → o ≡ none → Found ip cpu o w s
  tasks_of_it : (j : ℕ) (ts : IntSet) → Planned ip cpu j ts w s → o ≡ some j → Found ip cpu o w s

-- The same in the inner loop of GetJobForWorker, which is at a job
abbrev pub FitsAt : (ip : Text) (cpu j : ℕ) (w : WorkerJob) (s : Scheduler) → Type 0
FitsAt ip cpu j w s = (w.jobs ≡ []) ⊎ ((ts : IntSet) × Planned ip cpu j ts w s)

-- The limits after one more task, when CanAddTaskToWorker has let it pass
reaches-exceeds :
    (n m : ℕ) (limit : ℤ)
    → m ≤ n + 1
    → reaches (pos n) limit ≡ false
    → exceeds (pos m) limit ≡ false
reaches-exceeds n m limit l h = ground arith

reaches_sum-exceeds :
    (a : ℤ) (n m : ℕ) (limit : ℤ)
    → m ≤ n + 1
    → reaches (a +ℤ pos n) limit ≡ false
    → exceeds (a +ℤ pos m) limit ≡ false
reaches_sum-exceeds a n m limit l h = ground (arith, +ℤ_parts a (pos n), +ℤ_parts a (pos m))

reaches_cluster-exceeds :
    (j n m : ℕ) (limit : ℤ) (running : IntMap ℤ)
    → m ≤ n + 1
    → reaches_cluster j n limit running ≡ false
    → (k : ℤ) → IntMap.find j running ≡ some k
    → exceeds (k +ℤ pos m) limit ≡ false
unfolding reaches_cluster
reaches_cluster-exceeds j n m limit running l h k e =
    reaches_sum-exceeds k n m limit l (sym (rw (e, reaches_cluster) refl) ∙ h)

-- What CanAddTaskToWorker has checked
pub record Checked (ip : Text) (planned : WorkerJob) (j : ℕ) (s : Scheduler) : Type 0 where
  alone : is_occupied j (s.spec_of j).exclusive (job_at ip s) ≡ false
  at_worker :
      reaches
        (pos (get_num_tasks j (job_at ip s) + get_num_tasks j planned))
        (s.spec_of j).max_worker_instances
      ≡ false
  at_cluster :
      reaches_cluster j
        (get_num_tasks j planned)
        (s.spec_of j).max_cluster_instances
        s.simult_exec_cnt
      ≡ false
  executions :
      reaches
        (pos (get_num_tasks j (job_at ip s) + get_num_tasks j planned))
        (s.spec_of j).max_exec_at_worker
      ≡ false

all_false :
    (a b c d e : Bool)
    → (not a && not b && not c && not d && not e) ≡ true
    → (a ≡ false) × (b ≡ false) × (c ≡ false) × (d ≡ false) × (e ≡ false)
all_false a b c d e h = (ground arith, ground arith, ground arith, ground arith, ground arith)

pub can_add-Checked :
    (ip : Text) (planned : WorkerJob) (j : ℕ) (s : Scheduler)
    → can_add_task_to_worker ip planned j s ≡ true
    → Checked ip planned j s
unfolding can_add_task_to_worker
can_add-Checked ip planned j s h =
    let (a, b, c, d, e) = all_false _ _ _ _ _ h in
    record { alone = a; at_worker = b; at_cluster = c; executions = e }

pub Checked-IsAllowed :
    (ip : Text) (planned : WorkerJob) (j m : ℕ) (s : Scheduler)
    → Checked ip planned j s
    → is_worker_failed_job ip j s.failed ≡ false
    → is_permitted ip j s ≡ true
    → m ≤ get_num_tasks j planned + 1
    → IsAllowed ip j m s
Checked-IsAllowed ip planned j m s c f q l =
    let n = get_num_tasks j (job_at ip s) in
    let r = get_num_tasks j planned in
    record {
      not_failed = f;
      permitted = q;
      at_worker =
          reaches-exceeds (n + r) (n + m) (s.spec_of j).max_worker_instances (omega arith)
            c.at_worker;
      at_cluster =
          reaches_cluster-exceeds j r m (s.spec_of j).max_cluster_instances s.simult_exec_cnt l
            c.at_cluster;
      executions =
          reaches-exceeds (n + r) (n + m) (s.spec_of j).max_exec_at_worker (omega arith)
            c.executions;
      alone = c.alone;
    }

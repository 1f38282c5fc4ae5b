-- ===== src/Master/WorkerJob/Counts.antt =====
-- The numbers of tasks and jobs of a WorkerJob.
use prun.Base.{
  ℕ, suc, ◌+◌, ◌≤◌, ◌≡◌, refl, ap, Bool, true, false, not, List, ◌&&◌, some, [], ◌∷◌, length,
  length-append, ◌==◌, if◌then◌else◌, arith,
}
use prun.Containers.IntSet
use prun.Containers.IntSet.{IntSet}
use prun.Containers.IntMap
use prun.Containers.IntMap.{IntMap}
use prun.Master.WorkerJob.{
  WorkerTask, WorkerJob, tasks_of, add_task, add_tasks, plus, set_exclusive, delete_task,
  delete_job, has_task, get_all_tasks, all_tasks, tasks_for, total, get_num_tasks,
  get_total_num_tasks,
}
use prun.Master.WorkerJob.Tasks.{
  IsValid, add_task-IsValid, tasks_of-Ascending, Deleted, absent, last, more, delete_task-Deleted,
}
use prun.Master.WorkerJob.Sums.{has_task-tasks_of}

tasks_of-put :
    (j i : ℕ) (s : IntSet) (m : IntMap IntSet)
    → tasks_of i (IntMap.put j s m) ≡ (if j == i then s else tasks_of i m)
tasks_of-put j i s m = ground (arith, IntMap.find-put j i s m)

total-put :
    (j : ℕ) (s : IntSet) (m : IntMap IntSet)
    → IntMap.Ascending m
    → total (IntMap.put j s m) + length (tasks_of j m) ≡ total m + length s
unfolding total IntMap.put IntMap.find
total-put j s [] h = omega arith
total-put j s ((i, u) ∷ m) h = ground (arith, total-put j s m, IntMap.find-low j i m)

total-erase :
    (j : ℕ) (m : IntMap IntSet) → total (IntMap.erase j m) + length (tasks_of j m) ≡ total m
unfolding total IntMap.erase IntMap.find
total-erase j [] = omega arith
total-erase j ((i, u) ∷ m) = ground (arith, total-erase j m)

module _ (j t : ℕ) (w : WorkerJob) (h : IsValid w) where
  one_more :
      length (IntSet.insert t (tasks_of j w.jobs))
      ≡ length (tasks_of j w.jobs) + (if has_task j t w then 0 else 1)
  one_more = ground (
    arith,
    IntSet.length-insert t (tasks_of j w.jobs) (tasks_of-Ascending j w.jobs h.sets),
    has_task-tasks_of j t w,
  )

  -- In a valid representation, adding a task counts one more task in total, and of its own job, exactly if it was not there;
  -- the counts of the other jobs stay.
  pub get_num_tasks-add_task :
      (i : ℕ)
      → (get_num_tasks i (add_task j t w)
          ≡ get_num_tasks i w + (if j == i && not (has_task j t w) then 1 else 0))
        × (get_total_num_tasks (add_task j t w)
            ≡ get_total_num_tasks w + (if has_task j t w then 0 else 1))
  unfolding get_num_tasks get_total_num_tasks add_task
  get_num_tasks-add_task i =
      let s = IntSet.insert t (tasks_of j w.jobs) in
      (
        ground (arith, one_more, tasks_of-put j i s w.jobs),
        omega (arith, one_more, total-put j s w.jobs h.keys),
      )

find-tasks_of :
    (j : ℕ) (m : IntMap IntSet) (s : IntSet) → IntMap.find j m ≡ some s → tasks_of j m ≡ s
find-tasks_of j m s e = ground arith

found-has_task :
    (j t : ℕ) (w : WorkerJob) (s : IntSet)
    → IntMap.find j w.jobs ≡ some s
    → IntSet.contains t s ≡ true
    → has_task j t w ≡ true
unfolding has_task
found-has_task j t w s e c = ground arith

counted :
    (j t : ℕ) {w : WorkerJob} {r : WorkerJob × Bool}
    → IsValid w
    → Deleted j t w r
    → get_total_num_tasks w ≡ get_total_num_tasks r.0 + (if has_task j t w then 1 else 0)
unfolding get_total_num_tasks
counted j t h (absent n) = rw n (omega arith)
counted j t {w} h (last s e c n) = rw (found-has_task j t w s e c) (
    omega (
      arith,
      total-erase j w.jobs,
      ap length (find-tasks_of j w.jobs s e),
      IntSet.length-erase_self t s c,
      ap length n,
    ))
counted j t {w} h (more s e c n) = rw (found-has_task j t w s e c) (
    omega (
      arith,
      total-put j (IntSet.erase t s) w.jobs h.keys,
      ap length (find-tasks_of j w.jobs s e),
      IntSet.length-erase_self t s c,
    ))

-- In a valid representation, deleting a task counts one task less exactly if it was there.
pub get_total_num_tasks-delete_task :
    (j t : ℕ) (w : WorkerJob)
    → IsValid w
    → get_total_num_tasks w
      ≡ get_total_num_tasks (delete_task j t w).0 + (if has_task j t w then 1 else 0)
get_total_num_tasks-delete_task j t w h = counted j t h (delete_task-Deleted j t w)

-- The total is the tasks of a job and those that are left when the job is deleted.
pub get_total_num_tasks-delete_job :
    (j : ℕ) (w : WorkerJob)
    → get_total_num_tasks w ≡ get_total_num_tasks (delete_job j w).0 + get_num_tasks j w
unfolding get_total_num_tasks delete_job get_num_tasks
get_total_num_tasks-delete_job j w = ground (arith, total-erase j w.jobs)

length-tasks_for : (j : ℕ) (s : IntSet) → length (tasks_for j s) ≡ length s
length-tasks_for j [] = refl
length-tasks_for j (t ∷ s) = ap suc (length-tasks_for j s)

length-all_tasks : (m : IntMap IntSet) → length (all_tasks m) ≡ total m
unfolding all_tasks total
length-all_tasks [] = refl
length-all_tasks ((j, s) ∷ m) =
    omega
      (arith, length-append (tasks_for j s) (all_tasks m), length-tasks_for j s, length-all_tasks m)

-- The vector of GetTasks has as many entries as GetTotalNumTasks says.
length-get_all_tasks : (w : WorkerJob) → length (get_all_tasks w) ≡ get_total_num_tasks w
unfolding get_all_tasks get_total_num_tasks
length-get_all_tasks w = length-all_tasks w.jobs

total-add_tasks :
    (ts : List WorkerTask) (w : WorkerJob)
    → IsValid w
    → get_total_num_tasks (add_tasks ts w) ≤ get_total_num_tasks w + length ts
unfolding add_tasks
total-add_tasks [] w h = omega arith
total-add_tasks (t ∷ ts) w h = ground (
  arith,
  total-add_tasks ts (add_task t.job_id t.task_id w) (add_task-IsValid t.job_id t.task_id h),
  (get_num_tasks-add_task t.job_id t.task_id w h t.job_id).1,
)

-- w += v has no more tasks than both together.
pub total-plus :
    (w v : WorkerJob)
    → IsValid w
    → get_total_num_tasks (plus w v) ≤ get_total_num_tasks w + get_total_num_tasks v
unfolding plus get_total_num_tasks set_exclusive
total-plus w v h =
    flagged v.exclusive (get_total_num_tasks w + get_total_num_tasks v)
      (add_tasks (get_all_tasks v) w)
      (omega (arith, total-add_tasks (get_all_tasks v) w h, length-get_all_tasks v))
  where
    flagged :
        (b : Bool) (n : ℕ) (x : WorkerJob)
        → get_total_num_tasks x ≤ n
        → get_total_num_tasks (if b then set_exclusive true x else x) ≤ n
    flagged true n x k = k
    flagged false n x k = k

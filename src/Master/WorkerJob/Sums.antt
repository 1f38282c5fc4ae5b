-- ===== src/Master/WorkerJob/Sums.antt =====
-- The task list of a WorkerJob, and the sum of two.
use prun.Base.{
  ℕ, ◌≤◌, ◌≡◌, refl, ap, sym, ◌∙◌, Bool, true, false, ◌&&◌, ◌||◌, List, [], ◌∷◌, ◌++◌, ◌==◌,
  if◌then◌else◌, arith,
}
use prun.Containers.IntSet
use prun.Containers.IntSet.{IntSet}
use prun.Containers.IntMap
use prun.Containers.IntMap.{IntMap}
use prun.Master.WorkerJob.{
  WorkerTask, WorkerJob, tasks_of, add_task, has_task, add_tasks, plus, set_exclusive,
  get_all_tasks, all_tasks, tasks_for,
}
use prun.Master.WorkerJob.Tasks.{IsValid, add_task-IsValid, has_task-add_task}

-- Membership in a list of tasks.
abbrev pub listed : ℕ → ℕ → List WorkerTask → Bool
listed i u [] = false
listed i u (t ∷ ts) = (t.job_id == i && t.task_id == u) || listed i u ts

pub listed-append :
    (i u : ℕ) (xs ys : List WorkerTask) → listed i u (xs ++ ys) ≡ (listed i u xs || listed i u ys)
listed-append i u [] ys = refl
listed-append i u (x ∷ xs) ys = ground (arith, listed-append i u xs ys)

pub listed-tasks_for :
    (i u j : ℕ) (s : IntSet) → listed i u (tasks_for j s) ≡ (j == i && IntSet.contains u s)
unfolding IntSet.contains
listed-tasks_for i u j [] = ground arith
listed-tasks_for i u j (t ∷ s) = ground (arith, listed-tasks_for i u j s)

listed-above :
    (b i u : ℕ) (m : IntMap IntSet)
    → i ≤ b
    → IntMap.KeysAbove b m
    → listed i u (all_tasks m) ≡ false
unfolding all_tasks
listed-above b i u [] h k = refl
listed-above b i u ((j, s) ∷ m) h k = ground (
  arith,
  listed-append i u (tasks_for j s) (all_tasks m),
  listed-tasks_for i u j s,
  listed-above b i u m,
)

listed-all_tasks :
    (i u : ℕ) (m : IntMap IntSet)
    → IntMap.Ascending m
    → listed i u (all_tasks m) ≡ IntSet.contains u (tasks_of i m)
unfolding all_tasks IntMap.find IntSet.contains
listed-all_tasks i u [] h = refl
listed-all_tasks i u ((j, s) ∷ m) h = ground (
  arith,
  listed-append i u (tasks_for j s) (all_tasks m),
  listed-tasks_for i u j s,
  listed-all_tasks i u m,
  listed-above j i u m,
)

pub has_task-tasks_of :
    (i u : ℕ) (w : WorkerJob) → has_task i u w ≡ IntSet.contains u (tasks_of i w.jobs)
unfolding has_task IntSet.contains
has_task-tasks_of i u w = ground arith

-- In a valid representation the vector of GetTasks lists exactly the tasks that HasTask finds.
pub listed-get_all_tasks :
    (i u : ℕ) (w : WorkerJob) → IsValid w → listed i u (get_all_tasks w) ≡ has_task i u w
unfolding get_all_tasks
listed-get_all_tasks i u w h = listed-all_tasks i u w.jobs h.keys ∙ sym (has_task-tasks_of i u w)

set_exclusive-IsValid : (b : Bool) {w : WorkerJob} → IsValid w → IsValid (set_exclusive b w)
unfolding set_exclusive
set_exclusive-IsValid b h = record { keys = h.keys; sets = h.sets }

pub has_task-set_exclusive :
    (b : Bool) (i u : ℕ) (w : WorkerJob) → has_task i u (set_exclusive b w) ≡ has_task i u w
unfolding has_task set_exclusive
has_task-set_exclusive b i u w = refl

add_tasks-IsValid : (ts : List WorkerTask) (w : WorkerJob) → IsValid w → IsValid (add_tasks ts w)
unfolding add_tasks
add_tasks-IsValid [] w h = h
add_tasks-IsValid (t ∷ ts) w h =
    add_tasks-IsValid ts (add_task t.job_id t.task_id w) (add_task-IsValid t.job_id t.task_id h)

-- w += v keeps a valid representation valid.
pub plus-IsValid : (w v : WorkerJob) → IsValid w → IsValid (plus w v)
unfolding plus
plus-IsValid w v h = flagged v.exclusive (add_tasks-IsValid (get_all_tasks v) w h)
  where
    flagged :
        (b : Bool) {x : WorkerJob} → IsValid x → IsValid (if b then set_exclusive true x else x)
    flagged true k = set_exclusive-IsValid true k
    flagged false k = k

has_task-add_tasks :
    (i u : ℕ) (ts : List WorkerTask) (w : WorkerJob)
    → has_task i u (add_tasks ts w) ≡ (listed i u ts || has_task i u w)
unfolding add_tasks
has_task-add_tasks i u [] w = refl
has_task-add_tasks i u (t ∷ ts) w = ground (
  arith,
  has_task-add_tasks i u ts (add_task t.job_id t.task_id w),
  has_task-add_task t.job_id t.task_id i u w,
)

-- After w += v, where the representation of v is valid, the tasks are those of w and those of v.
pub has_task-plus :
    (i u : ℕ) (w v : WorkerJob)
    → IsValid v
    → has_task i u (plus w v) ≡ (has_task i u v || has_task i u w)
unfolding plus
has_task-plus i u w v h =
    flagged v.exclusive
    ∙ has_task-add_tasks i u (get_all_tasks v) w
    ∙ ap (λ b. b || has_task i u w) (listed-get_all_tasks i u v h)
  where
    flagged :
        (b : Bool)
        → has_task i u (
            if b
            then set_exclusive true (add_tasks (get_all_tasks v) w)
            else add_tasks (get_all_tasks v) w)
          ≡ has_task i u (add_tasks (get_all_tasks v) w)
    flagged true = has_task-set_exclusive true i u (add_tasks (get_all_tasks v) w)
    flagged false = refl

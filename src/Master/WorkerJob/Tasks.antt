-- ===== src/Master/WorkerJob/Tasks.antt =====
-- Which tasks a WorkerJob holds after each operation, and the invariant of its representation.
use prun.Base.{
  ℕ, ◌≡◌, ◌≢◌, refl, sym, Bool, true, false, not, ◌&&◌, ◌||◌, some, [], ◌∷◌, is_empty, ◌==◌, arith,
  Bool-cases, Option-cases, inl, inr,
}
use prun.Containers.IntSet
use prun.Containers.IntSet.{IntSet}
use prun.Containers.IntMap
use prun.Containers.IntMap.{IntMap}
use prun.Master.WorkerJob.{
  WorkerJob, tasks_of, add_task, delete_task, delete_job, has_task, has_job, without_jobs,
}

-- Every job of the map has tasks, in ascending order.
abbrev pub SetsValid : IntMap IntSet → Type 0
SetsValid [] = Unit
SetsValid ((j, s) ∷ m) = (s ≢ []) × IntSet.Ascending s × SetsValid m

pub record IsValid (w : WorkerJob) : Type 0 where
  pub keys : IntMap.Ascending w.jobs
  pub sets : SetsValid w.jobs

pub find-valid :
    (j : ℕ) (m : IntMap IntSet) (s : IntSet)
    → SetsValid m
    → IntMap.find j m ≡ some s
    → (s ≢ []) × IntSet.Ascending s
unfolding IntMap.find
find-valid j [] s h e = ground arith
find-valid j ((i, u) ∷ m) s h e = ground (arith, find-valid j m s)

put-valid :
    (j : ℕ) (s : IntSet) (m : IntMap IntSet)
    → s ≢ []
    → IntSet.Ascending s
    → SetsValid m
    → SetsValid (IntMap.put j s m)
unfolding IntMap.put
put-valid j s [] n a h = (n, a, tt)
put-valid j s ((i, u) ∷ m) n a h = ground (arith, put-valid j s m)

erase-valid : (j : ℕ) (m : IntMap IntSet) → SetsValid m → SetsValid (IntMap.erase j m)
unfolding IntMap.erase
erase-valid j [] h = tt
erase-valid j ((i, u) ∷ m) h = ground (arith, erase-valid j m)

insert-ne-nil : (t : ℕ) (s : IntSet) → IntSet.insert t s ≢ []
unfolding IntSet.insert
insert-ne-nil t [] = ground arith
insert-ne-nil t (y ∷ s) = ground arith

pub tasks_of-Ascending : (j : ℕ) (m : IntMap IntSet) → SetsValid m → IntSet.Ascending (tasks_of j m)
unfolding IntMap.find
tasks_of-Ascending j [] h = tt
tasks_of-Ascending j ((i, u) ∷ m) h = ground (arith, tasks_of-Ascending j m)

-- AddTask keeps a valid representation valid.
pub add_task-IsValid : (j t : ℕ) {w : WorkerJob} → IsValid w → IsValid (add_task j t w)
unfolding add_task
add_task-IsValid j t {w} h = record {
  keys = IntMap.put-Ascending j (IntSet.insert t (tasks_of j w.jobs)) w.jobs h.keys;
  sets =
      put-valid j (IntSet.insert t (tasks_of j w.jobs)) w.jobs (insert-ne-nil t (tasks_of j w.jobs))
        (IntSet.insert-Ascending t (tasks_of j w.jobs) (tasks_of-Ascending j w.jobs h.sets)) h.sets;
}

without_jobs-IsValid :
    (m : IntMap IntSet) (e : Bool) → IntMap.Ascending m → SetsValid m → IsValid (without_jobs m e)
without_jobs-IsValid m e a h = record { keys = a; sets = h }

ne-nil : (s : IntSet) → is_empty s ≡ false → s ≢ []
ne-nil [] h = cc
ne-nil (x ∷ s) h = ground arith

nil_of_empty : (s : IntSet) → is_empty s ≡ true → s ≡ []
nil_of_empty [] h = refl
nil_of_empty (x ∷ s) h = cc

module _ (j : ℕ) {w : WorkerJob} (h : IsValid w) where
  erase_job-IsValid : IsValid (without_jobs (IntMap.erase j w.jobs) w.exclusive)
  erase_job-IsValid =
      without_jobs-IsValid (IntMap.erase j w.jobs) w.exclusive
        (IntMap.erase-Ascending j w.jobs h.keys) (erase-valid j w.jobs h.sets)

  put_job-IsValid :
      (s : IntSet)
      → s ≢ []
      → IntSet.Ascending s
      → IsValid (record w { jobs = IntMap.put j s w.jobs })
  put_job-IsValid s n a = record {
    keys = IntMap.put-Ascending j s w.jobs h.keys;
    sets = put-valid j s w.jobs n a h.sets;
  }

-- What delete_task does, by what it finds.
pub data Deleted (j t : ℕ) (w : WorkerJob) : WorkerJob × Bool → Type 0 where
  absent : has_task j t w ≡ false → Deleted j t w (w, false)
  last :
      (s : IntSet)
      → IntMap.find j w.jobs ≡ some s
      → IntSet.contains t s ≡ true
      → IntSet.erase t s ≡ []
      → Deleted j t w (without_jobs (IntMap.erase j w.jobs) w.exclusive, true)
  more :
      (s : IntSet)
      → IntMap.find j w.jobs ≡ some s
      → IntSet.contains t s ≡ true
      → IntSet.erase t s ≢ []
      → Deleted j t w (record w { jobs = IntMap.put j (IntSet.erase t s) w.jobs }, true)

pub delete_task-Deleted : (j t : ℕ) (w : WorkerJob) → Deleted j t w (delete_task j t w)
unfolding delete_task has_task
delete_task-Deleted j t w = elim (Option-cases (IntMap.find j w.jobs)) [
  | inl e ↦ rw (e, delete_task) (absent (rw (e, has_task)))
  | inr (s, e) ↦ elim (Bool-cases (IntSet.contains t s)) [
    | inl c ↦ elim (Bool-cases (is_empty (IntSet.erase t s))) [
      | inl n ↦ rw (e, delete_task, c, n) (last s e c (nil_of_empty (IntSet.erase t s) n))
      | inr n ↦ rw (e, delete_task, c, n) (more s e c (ne-nil (IntSet.erase t s) n))
    ]
    | inr c ↦ rw (e, delete_task, c) (absent (rw (e, has_task, c)))
  ]
]

Deleted-IsValid :
    (j t : ℕ) {w : WorkerJob} {r : WorkerJob × Bool} → IsValid w → Deleted j t w r → IsValid r.0
Deleted-IsValid j t h (absent n) = h
Deleted-IsValid j t h (last s e c n) = erase_job-IsValid j h
Deleted-IsValid j t {w} h (more s e c n) =
    put_job-IsValid j h (IntSet.erase t s) n
      (IntSet.erase-Ascending t s (find-valid j w.jobs s h.sets e).1)

-- DeleteTask keeps a valid representation valid; no job without tasks stays behind.
pub delete_task-IsValid : (j t : ℕ) {w : WorkerJob} → IsValid w → IsValid (delete_task j t w).0
delete_task-IsValid j t {w} h = Deleted-IsValid j t h (delete_task-Deleted j t w)

-- DeleteJob keeps a valid representation valid.
pub delete_job-IsValid : (j : ℕ) {w : WorkerJob} → IsValid w → IsValid (delete_job j w).0
unfolding delete_job
delete_job-IsValid j {w} h = elim (Option-cases (IntMap.find j w.jobs)) [
  | inl e ↦ rw (e, delete_job) h
  | inr (s, e) ↦ rw (e, delete_job) (erase_job-IsValid j h)
]

contains-nil : (u : ℕ) → IntSet.contains u [] ≡ false
unfolding IntSet.contains
contains-nil u = refl

-- Adding a task adds that task and changes no other.
pub has_task-add_task :
    (j t i u : ℕ) (w : WorkerJob)
    → has_task i u (add_task j t w) ≡ ((j == i && t == u) || has_task i u w)
unfolding has_task add_task
has_task-add_task j t i u w = ground (
  arith,
  IntMap.find-put j i (IntSet.insert t (tasks_of j w.jobs)) w.jobs,
  IntSet.contains-insert t u (tasks_of j w.jobs),
  contains-nil u,
)

abbrev DeletesTask : (j t i u : ℕ) → WorkerJob → WorkerJob × Bool → Type 0
DeletesTask j t i u w r =
    (r.1 ≡ has_task j t w) × (has_task i u r.0 ≡ (not (j == i && t == u) && has_task i u w))

absent_law :
    (j t i u : ℕ) (w : WorkerJob) → has_task j t w ≡ false → DeletesTask j t i u w (w, false)
absent_law j t i u w n = (sym n, ground arith)

Deleted-DeletesTask :
    (j t i u : ℕ) {w : WorkerJob} {r : WorkerJob × Bool}
    → IsValid w
    → Deleted j t w r
    → DeletesTask j t i u w r
unfolding has_task
Deleted-DeletesTask j t i u {w} h (absent n) = absent_law j t i u w n
Deleted-DeletesTask j t i u {w} h (last s e c n) =
    let law = IntMap.find-erase j i w.jobs h.keys in
    let left = IntSet.contains-erase t u s (find-valid j w.jobs s h.sets e).1 in
    (ground arith, ground (arith, contains-nil u))
Deleted-DeletesTask j t i u {w} h (more s e c n) =
    let law = IntMap.find-put j i (IntSet.erase t s) w.jobs in
    let left = IntSet.contains-erase t u s (find-valid j w.jobs s h.sets e).1 in
    (ground arith, ground arith)

-- In a valid representation, deleting a task says whether it was there, removes it, and changes no
-- other.
pub has_task-delete_task :
    (j t i u : ℕ) (w : WorkerJob)
    → IsValid w
    → ((delete_task j t w).1 ≡ has_task j t w)
      × (has_task i u (delete_task j t w).0 ≡ (not (j == i && t == u) && has_task i u w))
has_task-delete_task j t i u w h = Deleted-DeletesTask j t i u h (delete_task-Deleted j t w)

-- In a valid representation, deleting a job says whether it was there, removes all its tasks, and
-- changes those of no other.
pub has_task-delete_job :
    (j i u : ℕ) (w : WorkerJob)
    → IsValid w
    → ((delete_job j w).1 ≡ has_job j w)
      × (has_task i u (delete_job j w).0 ≡ (not (j == i) && has_task i u w))
unfolding has_task delete_job has_job
has_task-delete_job j i u w h =
    let law = IntMap.find-erase j i w.jobs h.keys in (ground arith, ground arith)

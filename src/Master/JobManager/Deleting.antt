-- ===== src/Master/JobManager/Deleting.antt =====
-- JobManager::DeleteNamedJob (master/job_manager.cpp): which jobs it deletes.
use prun.Base.{
  ℕ, ◌≡◌, refl, ap, ◌∙◌, Bool, false, not, ◌&&◌, List, [], ◌∷◌, Text, text_eq, any, is_empty, ◌==◌,
  arith,
}
use prun.Containers.IntSet
use prun.Containers.IntSet.{IntSet}
use prun.Master.JobStore.{Queue, is_in}
use prun.Master.JobQueue
use prun.Master.JobQueue.{get_jobs_by_name}
use prun.Master.JobQueue.Consistency.{IsConsistent}
use prun.Master.JobQueue.Deletion.{delete_job-IsConsistent}
use prun.Master.JobManager.{Manager, delete_job, delete_each, delete_named_job}
use prun.Master.JobManager.Fresh.{SameJobs-IsConsistent, with_queue-SameJobs}

-- Exactly the jobs that `gone` holds of are not registered any more, and the views agree.
abbrev pub Loses : (ℕ → Bool) → Queue → Queue → Type 0
Loses gone q r =
    IsConsistent r
    × ((z : ℕ) → IntSet.contains z r.id_to_job ≡ (not (gone z) && IntSet.contains z q.id_to_job))

delete_job-Loses :
    (i : ℕ) (m : Manager)
    → IsConsistent m.queue
    → Loses (λ z. i == z) m.queue (delete_job i m).0.queue
unfolding delete_job
delete_job-Loses i m k =
    let q = (JobQueue.delete_job i m.queue).0 in
    let s = with_queue-SameJobs q m in
    let (c, g) = delete_job-IsConsistent i m.queue k in
    (SameJobs-IsConsistent q _ s c, λ z. ap (IntSet.contains z) s.2 ∙ g z)

delete_each-Loses :
    (hs : List ℕ) (m : Manager)
    → IsConsistent m.queue
    → Loses (λ z. is_in z hs) m.queue (delete_each hs m).queue
unfolding delete_each is_in
delete_each-Loses [] m k = (k, λ z. refl)
delete_each-Loses (h ∷ hs) m k =
    let (c, g) = delete_job-Loses h m k in
    let (d, e) = delete_each-Loses hs (delete_job h m).0 c in (d, λ z. e z ∙ ground (arith, g z))

-- Whether a job is registered for a name
abbrev pub has_name : Text → ℕ → List (Text × ℕ) → Bool
has_name n z l = any (λ (e : Text × ℕ). text_eq e.0 n && e.1 == z) l

is_in-contains : (z : ℕ) (s : IntSet) → is_in z s ≡ IntSet.contains z s
unfolding is_in IntSet.contains
is_in-contains z [] = refl
is_in-contains z (x ∷ s) = ground (arith, is_in-contains z s)

contains-get_jobs_by_name :
    (n : Text) (z : ℕ) (l : List (Text × ℕ))
    → IntSet.contains z (get_jobs_by_name n l) ≡ has_name n z l
unfolding get_jobs_by_name IntSet.contains
contains-get_jobs_by_name n z [] = refl
contains-get_jobs_by_name n z ((m, h) ∷ l) =
    ground
      (arith, contains-get_jobs_by_name n z l, IntSet.contains-insert h z (get_jobs_by_name n l))

insert_full : (x : ℕ) (s : IntSet) → is_empty (IntSet.insert x s) ≡ false
unfolding IntSet.insert
insert_full x [] = refl
insert_full x (y ∷ s) = ground arith

is_empty-get_jobs_by_name :
    (n : Text) (l : List (Text × ℕ))
    → not (is_empty (get_jobs_by_name n l)) ≡ any (λ (e : Text × ℕ). text_eq e.0 n) l
unfolding get_jobs_by_name
is_empty-get_jobs_by_name n [] = refl
is_empty-get_jobs_by_name n ((m, h) ∷ l) =
    ground (arith, is_empty-get_jobs_by_name n l, insert_full h (get_jobs_by_name n l))

-- If the views of the queue agree, they do after DeleteNamedJob; exactly the jobs that were
-- registered for the name, their own or their group's, are not registered any more; and the answer
-- is whether there was an entry of that name.
pub delete_named_job-Loses :
    (n : Text) (m : Manager)
    → IsConsistent m.queue
    → Loses (λ z. has_name n z m.queue.names) m.queue (delete_named_job n m).0.queue
      × ((delete_named_job n m).1 ≡ any (λ (e : Text × ℕ). text_eq e.0 n) m.queue.names)
unfolding delete_named_job
delete_named_job-Loses n m k =
    let hs = get_jobs_by_name n m.queue.names in
    let m' : Manager = record m { queue = JobQueue.holding hs m.queue } in
    let k' : IsConsistent m'.queue = record {
      ids_ascend = k.ids_ascend;
      listed_once = k.listed_once;
    } in
    let (c, g) = delete_each-Loses hs m' k' in
    (
      (
        record { ids_ascend = c.ids_ascend; listed_once = c.listed_once },
        λ z.
            g z
            ∙ ap (λ b. not b && IntSet.contains z m.queue.id_to_job)
                (is_in-contains z hs ∙ contains-get_jobs_by_name n z m.queue.names),
      ),
      is_empty-get_jobs_by_name n m.queue.names,
    )

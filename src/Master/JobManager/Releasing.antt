-- ===== src/Master/JobManager/Releasing.antt =====
-- Which names JobQueue::DeleteJob (master/job.cpp) has the job manager release.
use prun.Base.{
  ℕ, ◌≡◌, refl, ◌∙◌, Bool, true, false, ◌||◌, Option, none, some, List, [], ◌∷◌, ◌++◌, Text,
  text_eq, text_eq_refl, any, is_empty, if◌then◌else◌, arith,
}
use prun.Base.Int.{pos, ltb_ℤ}
use prun.Containers.IntSet
use prun.Master.JobStore.{
  Event, Queue, emit, push, remove, is_in, behind, make_heap, callback, job_deleted,
  unknown_delayed, name_released,
}
use prun.Master.JobQueue
use prun.Master.JobQueue.{
  add_name, register, is_alive, release_meta_job_name, remove_first, complete_edge, complete_edges,
  on_job_dependencies_resolved, on_job_completion, release_last, leave_group, on_job_deletion,
  forget_name, take_out, out_jobs,
}
use prun.Master.JobQueue.Keeping.{fewer}

-- Whether the queue's calls release this name
abbrev pub is_release : Text → Event → Bool
is_release n (name_released m) = text_eq m n
is_release n (callback h) = false
is_release n (job_deleted h) = false
is_release n (unknown_delayed h) = false

abbrev pub releases : Text → Queue → Bool
releases n q = any (is_release n) q.events

any-append :
    (n : Text) (xs ys : List Event)
    → any (is_release n) (xs ++ ys) ≡ (any (is_release n) xs || any (is_release n) ys)
any-append n [] ys = refl
any-append n (x ∷ xs) ys = ground (arith, any-append n xs ys)

emit-releases :
    (n : Text) (e : Event) (q : Queue) → releases n q ≡ true → releases n (emit e q) ≡ true
emit-releases n e q h = any-append n q.events (e ∷ []) ∙ ground arith

-- A name that is released stays so while the queue does more.
if-releases :
    (n : Text) (b : Bool) (q r : Queue)
    → releases n q ≡ true
    → releases n r ≡ true
    → releases n (if b then q else r) ≡ true
if-releases n true q r x y = x
if-releases n false q r x y = y

resolved-releases :
    (n : Text) (h : ℕ) (q : Queue)
    → releases n q ≡ true
    → releases n (on_job_dependencies_resolved h q) ≡ true
unfolding on_job_dependencies_resolved
resolved-releases n h q e =
    if-releases n (is_in h q.delayed) (record (push h q) { delayed = remove h q.delayed })
      (emit (unknown_delayed h) q) e (emit-releases n (unknown_delayed h) q e)

complete_edge-releases :
    (n : Text) (h : ℕ) (q : Queue) → releases n q ≡ true → releases n (complete_edge h q) ≡ true
unfolding complete_edge
complete_edge-releases n h q e =
    let r : Queue = fewer h q in
    let low = ltb_ℤ (q.job_of h).num_depends (pos 2) in
    if-releases n (is_alive h q) (if low then on_job_dependencies_resolved h r else r) q
      (if-releases n low (on_job_dependencies_resolved h r) r (resolved-releases n h r e) e) e

complete_edges-releases :
    (n : Text) (hs : List ℕ) (q : Queue)
    → releases n q ≡ true
    → releases n (complete_edges hs q) ≡ true
unfolding complete_edges
complete_edges-releases n [] q e = e
complete_edges-releases n (h ∷ hs) q e =
    complete_edges-releases n hs (complete_edge h q) (complete_edge-releases n h q e)

release_last-releases :
    (n m : Text) (b : Bool) (q : Queue)
    → releases n q ≡ true
    → releases n (release_last b m q) ≡ true
release_last-releases n m true q e = emit-releases n (name_released m) q e
release_last-releases n m false q e = e

leave_group-releases :
    (n : Text) (g : Option ℕ) (h : ℕ) (q : Queue)
    → releases n q ≡ true
    → releases n (leave_group g h q) ≡ true
unfolding on_job_completion
leave_group-releases n none h q e = e
leave_group-releases n (some k) h q e =
    let name = (q.group_of k).name in
    let q' : Queue = record q { names = release_meta_job_name name h q.names } in
    let (r, is_last) = on_job_completion k (q.job_of h).vertex q' in
    release_last-releases n name is_last r (
      complete_edges-releases n
        (out_jobs (q.job_of h).vertex (q.group_of k).edges (q.group_of k).index_to_job) q' e)

on_job_deletion-releases :
    (n : Text) (h : ℕ) (q : Queue) → releases n q ≡ true → releases n (on_job_deletion h q) ≡ true
unfolding on_job_deletion
on_job_deletion-releases n h q e =
    emit-releases n (job_deleted h) (leave_group (q.job_of h).job_group h (emit (callback h) q)) (
      leave_group-releases n (q.job_of h).job_group h (emit (callback h) q)
        (emit-releases n (callback h) q e))

forget_name-releases :
    (n : Text) (q : Queue) → is_empty n ≡ false → releases n (forget_name n q) ≡ true
forget_name-releases n q e =
    rw (e, forget_name)
      (any-append n q.events (name_released n ∷ []) ∙ ground (arith, text_eq_refl n))

take_out-releases :
    (n : Text) (h : ℕ) (q : Queue) → releases n q ≡ true → releases n (take_out h q) ≡ true
take_out-releases n h q e =
    if-releases n (is_in h q.jobs)
      (record q { jobs = make_heap (behind q.job_of) (remove_first h q.jobs) })
      (record q { delayed = remove h q.delayed }) e e

-- DeleteJob releases the job's own name.
pub delete_job-releases :
    (h : ℕ) (q : Queue)
    → IntSet.contains h q.id_to_job ≡ true
    → is_empty (q.job_of h).name ≡ false
    → releases (q.job_of h).name (JobQueue.delete_job h q).0 ≡ true
unfolding JobQueue.delete_job
delete_job-releases h q e f =
    let n = (q.job_of h).name in
    let p : Queue =
      JobQueue.holding (h ∷ []) (record q { id_to_job = IntSet.erase h q.id_to_job }) in
    let r = forget_name n p in
    rw (e, JobQueue.delete_job)
      (take_out-releases n h (on_job_deletion h r)
        (on_job_deletion-releases n h r (forget_name-releases n p f)))

-- ===== src/Master/JobQueue/Order.antt =====
-- Every operation of JobQueue keeps the heap in order, so that PopJob returns a job of the best
-- priority.
use prun.Base.{
  ℕ, ◌≡◌, refl, subst, Bool, true, false, Option, none, some, List, [], ◌∷◌, ◌++◌, All, Text,
  if◌then◌else◌, arith, Bool-cases, ◌⊎◌, inl, inr,
}
use prun.Base.Int.{◌<ℤ◌, ◌≤ℤ◌, eq_of_parts, ℤ, pos, ltb_ℤ, ◌-ℤ◌}
use prun.Containers.IntSet
use prun.Master.JobStore.{Job, comparator, Queue, update, behind, is_in}
use prun.Master.JobQueue.{
  pop_job, on_job_dependencies_resolved, is_alive, complete_edge, complete_edges, on_job_completion,
  out_jobs, leave_group, release_last, on_job_deletion, forget_name, take_out, delete_job,
  delete_each, delete_job_group, clear, in_group, holding, remove_first,
}
use prun.Master.JobQueue.Heap.{IsHeap, SameKeys, push_heap-IsHeap, make_heap-IsHeap, IsHeap-same}

abbrev pub IsOrdered : Queue → Type 0
IsOrdered q = IsHeap q.job_of q.jobs

-- In ascending order of priority, and of group id where the priorities agree
abbrev pub GoesFirst : Job → Job → Type 0
GoesFirst a b =
    (a.priority <ℤ b.priority) ⊎ ((a.priority ≡ b.priority) × (a.group_id ≤ℤ b.group_id))

comparator-GoesFirst : (a b : Job) → comparator a b ≡ false → GoesFirst a b
unfolding comparator
comparator-GoesFirst a b h = elim (Bool-cases (ltb_ℤ a.priority b.priority)) [
  | inl e ↦ inl (ground arith)
  | inr e ↦ inr (eq_of_parts a.priority b.priority (ground arith), ground arith)
]

All-GoesFirst :
    (f : ℕ → Job) (h : ℕ) (l : List ℕ)
    → All (λ x. behind f h x ≡ false) l
    → All (λ x. GoesFirst (f h) (f x)) l
All-GoesFirst f h [] a = tt
All-GoesFirst f h (x ∷ l) a = (comparator-GoesFirst (f h) (f x) a.0, All-GoesFirst f h l a.1)

-- PopJob returns nothing only if the heap is empty; otherwise a job of the heap that leaves it, of
-- which each that is left has a greater priority number, or the same and a group id that is not less.
abbrev pub IsBest : Queue → Type 0
IsBest q =
    ((q.jobs ≡ []) × (pop_job q ≡ none))
    ⊎ ((h : ℕ) × (q' : Queue) × (pop_job q ≡ some (h, q'))
        × (is_in h q.jobs ≡ true)
        × (q'.jobs ≡ remove_first h q.jobs)
        × All (λ x. GoesFirst (q.job_of h) (q.job_of x)) q'.jobs)

pop_job-front : (q : Queue) (l : List ℕ) → IsHeap q.job_of l → IsBest (record q { jobs = l })
unfolding pop_job is_in remove_first
pop_job-front q [] o = inl (refl, refl)
pop_job-front q (h ∷ l) o =
    inr (h, _, refl, ground arith, ground arith, All-GoesFirst q.job_of h l o.0)

-- The same for a queue in order
pub pop_job-IsBest : (q : Queue) → IsOrdered q → IsBest q
pop_job-IsBest q o = pop_job-front q q.jobs o

pop_front-IsOrdered :
    (q q' : Queue) (h : ℕ) (l : List ℕ)
    → IsHeap q.job_of l
    → pop_job (record q { jobs = l }) ≡ some (h, q')
    → IsOrdered q'
unfolding pop_job
pop_front-IsOrdered q q' h [] o e = absurd (ground arith)
pop_front-IsOrdered q q' h (x ∷ l) o e =
    let same : record q { jobs = l; id_to_job = IntSet.erase x q.id_to_job; held = x ∷ q.held }
        ≡ q' =
      cc in
    subst IsOrdered same o.1

-- PopJob keeps the order.
pub pop_job-IsOrdered :
    (q q' : Queue) (h : ℕ) → IsOrdered q → pop_job q ≡ some (h, q') → IsOrdered q'
pop_job-IsOrdered q q' h o e = pop_front-IsOrdered q q' h q.jobs o e

pub resolved-IsOrdered :
    (h : ℕ) (q : Queue) → IsOrdered q → IsOrdered (on_job_dependencies_resolved h q)
unfolding on_job_dependencies_resolved
resolved-IsOrdered h q o = ground (arith, push_heap-IsHeap q.job_of h q.jobs)

fewer : ℕ → Queue → Queue
fewer h q = record q {
  job_of =
      update q.job_of h (record (q.job_of h) { num_depends = (q.job_of h).num_depends -ℤ pos 1 });
}

fewer-SameKeys : (h : ℕ) (q : Queue) → SameKeys q.job_of (fewer h q).job_of
unfolding fewer update
fewer-SameKeys h q i = ground arith

fewer-IsOrdered : (h : ℕ) (q : Queue) → IsOrdered q → IsOrdered (fewer h q)
unfolding fewer
fewer-IsOrdered h q o = IsHeap-same q.job_of (fewer h q).job_of q.jobs (fewer-SameKeys h q) o

pub if-IsOrdered :
    (b : Bool) (q r : Queue) → IsOrdered q → IsOrdered r → IsOrdered (if b then q else r)
if-IsOrdered true q r o p = o
if-IsOrdered false q r o p = p

complete_edge-IsOrdered : (h : ℕ) (q : Queue) → IsOrdered q → IsOrdered (complete_edge h q)
unfolding complete_edge fewer
complete_edge-IsOrdered h q o =
    if-IsOrdered (is_alive h q) _ q
      (if-IsOrdered (ltb_ℤ (q.job_of h).num_depends (pos 2)) _ (fewer h q)
        (resolved-IsOrdered h (fewer h q) (fewer-IsOrdered h q o)) (fewer-IsOrdered h q o))
      o

complete_edges-IsOrdered : (hs : List ℕ) (q : Queue) → IsOrdered q → IsOrdered (complete_edges hs q)
unfolding complete_edges
complete_edges-IsOrdered [] q o = o
complete_edges-IsOrdered (h ∷ hs) q o =
    complete_edges-IsOrdered hs (complete_edge h q) (complete_edge-IsOrdered h q o)

-- The completion of a job keeps the order.
pub on_job_completion-IsOrdered :
    (k v : ℕ) (q : Queue) → IsOrdered q → IsOrdered (on_job_completion k v q).0
unfolding on_job_completion
on_job_completion-IsOrdered k v q o =
    complete_edges-IsOrdered (out_jobs v (q.group_of k).edges (q.group_of k).index_to_job) q o

release_last-IsOrdered :
    (b : Bool) (n : Text) (q : Queue) → IsOrdered q → IsOrdered (release_last b n q)
release_last-IsOrdered true n q o = o
release_last-IsOrdered false n q o = o

leave_group-IsOrdered :
    (k : Option ℕ) (h : ℕ) (q : Queue) → IsOrdered q → IsOrdered (leave_group k h q)
leave_group-IsOrdered none h q o = o
leave_group-IsOrdered (some k) h q o =
    release_last-IsOrdered _ _ _ (on_job_completion-IsOrdered k (q.job_of h).vertex _ o)

on_job_deletion-IsOrdered : (h : ℕ) (q : Queue) → IsOrdered q → IsOrdered (on_job_deletion h q)
unfolding on_job_deletion
on_job_deletion-IsOrdered h q o = leave_group-IsOrdered (q.job_of h).job_group h _ o

take_out-IsOrdered : (h : ℕ) (q : Queue) → IsOrdered q → IsOrdered (take_out h q)
take_out-IsOrdered h q o = ground (arith, make_heap-IsHeap q.job_of (remove_first h q.jobs))

forget_name-IsOrdered : (n : Text) (q : Queue) → IsOrdered q → IsOrdered (forget_name n q)
forget_name-IsOrdered n q o = ground arith

-- DeleteJob keeps the order.
pub delete_job-IsOrdered : (h : ℕ) (q : Queue) → IsOrdered q → IsOrdered (delete_job h q).0
unfolding delete_job
delete_job-IsOrdered h q o = elim (Bool-cases (IntSet.contains h q.id_to_job)) [
  | inl e ↦
      rw (e, delete_job)
        (take_out-IsOrdered h _
          (on_job_deletion-IsOrdered h _ (forget_name-IsOrdered (q.job_of h).name _ o)))
  | inr e ↦ rw (e, delete_job) o
]

delete_each-IsOrdered :
    (hs : List ℕ) (q : Queue) (d : Bool) → IsOrdered q → IsOrdered (delete_each hs q d).0
unfolding delete_each
delete_each-IsOrdered [] q d o = o
delete_each-IsOrdered (h ∷ hs) q d o =
    delete_each-IsOrdered hs (delete_job h q).0 (delete_job h q).1 (delete_job-IsOrdered h q o)

-- DeleteJobGroup keeps the order.
pub delete_job_group-IsOrdered :
    (g : ℤ) (q : Queue) → IsOrdered q → IsOrdered (delete_job_group g q).0
unfolding delete_job_group
delete_job_group-IsOrdered g q o =
    let hs = in_group g q.job_of q.jobs ++ in_group g q.job_of q.delayed in
    delete_each-IsOrdered hs (holding hs q) false o

-- Clear keeps the order.
pub clear-IsOrdered : (q : Queue) → IsOrdered q → IsOrdered (clear q)
unfolding clear
clear-IsOrdered q o =
    let hs = q.jobs ++ q.delayed in delete_each-IsOrdered hs (holding hs q) false o

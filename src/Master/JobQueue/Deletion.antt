-- ===== src/Master/JobQueue/Deletion.antt =====
-- What DeleteJob and Clear leave of a job queue whose views agree.
use prun.Base.{
  ℕ, ◌+◌, ◌-◌, ◌≡◌, refl, ap, ◌∙◌, Bool, true, false, not, ◌&&◌, List, [], ◌∷◌, ◌++◌, ◌==◌, arith,
  Bool-cases, inl, inr,
}
use prun.Containers.IntSet
use prun.Containers.IntSet.{IntSet}
use prun.Master.JobStore.{Queue, is_in}
use prun.Master.JobQueue.{on_job_deletion, forget_name, delete_job, delete_each, holding}
use prun.Master.JobQueue.Dependencies.{count}
use prun.Master.JobQueue.Keeping.{
  is_in-count, one_if, Keeps, on_job_deletion-Keeps, forget_name-Keeps, take_out-Keeps,
}
use prun.Master.JobQueue.Consistency.{
  IsConsistent, registered, registered_small, Keeps-IsConsistent,
}
use prun.Master.JobQueue.{clear}

delete_job-Keeps :
    (h : ℕ) (q : Queue)
    → IntSet.contains h q.id_to_job ≡ true
    → IsConsistent q
    → Keeps (λ z. registered q z - one_if (h == z)) (IntSet.erase h q.id_to_job) (delete_job h q).0
unfolding delete_job
delete_job-Keeps h q e k =
    let ids = IntSet.erase h q.id_to_job in
    let p : Queue = holding (h ∷ []) (record q { id_to_job = ids }) in
    let n = (q.job_of h).name in
    let c = registered q in
    let small = registered_small q in
    rw (e, delete_job)
      (take_out-Keeps c ids small h (on_job_deletion h (forget_name n p)) (
        on_job_deletion-Keeps c ids small h (forget_name n p)
          (forget_name-Keeps c ids small n p (refl, k.listed_once))))

delete_job_unknown :
    (h : ℕ) (q : Queue) → IntSet.contains h q.id_to_job ≡ false → (delete_job h q).0 ≡ q
unfolding delete_job
delete_job_unknown h q e = rw (e, delete_job) refl

-- If the ids, the heap and the delayed jobs of a queue agree, they do after DeleteJob, whatever
-- jobs of the group it releases; and then the job's own id, and no other, is not registered any
-- more.
pub delete_job-IsConsistent :
    (h : ℕ) (q : Queue)
    → IsConsistent q
    → IsConsistent (delete_job h q).0
      × ((z : ℕ)
          → IntSet.contains z (delete_job h q).0.id_to_job
            ≡ (not (h == z) && IntSet.contains z q.id_to_job))
delete_job-IsConsistent h q k = elim (Bool-cases (IntSet.contains h q.id_to_job)) [
  | inl e ↦
      let kept = delete_job-Keeps h q e k in
      (
        Keeps-IsConsistent (λ z. registered q z - one_if (h == z)) (IntSet.erase h q.id_to_job)
            (delete_job h q).0 (IntSet.erase-Ascending h q.id_to_job k.ids_ascend)
            (λ z. ground (arith, IntSet.contains-erase h z q.id_to_job k.ids_ascend)) kept,
        λ z. ap (IntSet.contains z) kept.0 ∙ IntSet.contains-erase h z q.id_to_job k.ids_ascend,
      )
  | inr e ↦ rw (delete_job_unknown h q e) (k, λ z. ground arith)
]

delete_each-IsConsistent :
    (hs : List ℕ) (q : Queue) (d : Bool)
    → IsConsistent q
    → IsConsistent (delete_each hs q d).0
      × ((z : ℕ)
          → IntSet.contains z (delete_each hs q d).0.id_to_job
            ≡ (not (is_in z hs) && IntSet.contains z q.id_to_job))
unfolding delete_each is_in
delete_each-IsConsistent [] q d k = (k, λ z. refl)
delete_each-IsConsistent (h ∷ hs) q d k =
    let (one, gone) = delete_job-IsConsistent h q k in
    let (rest, left) = delete_each-IsConsistent hs (delete_job h q).0 (delete_job h q).1 one in
    (rest, λ z. left z ∙ ground (arith, gone z))

nil_of_counts : (l : List ℕ) → ((z : ℕ) → count z l ≡ 0) → l ≡ []
nil_of_counts [] h = refl
nil_of_counts (x ∷ l) h = absurd (ground (arith, h x))

count-append : (z : ℕ) (l m : List ℕ) → count z (l ++ m) ≡ count z l + count z m
count-append z [] m = omega arith
count-append z (x ∷ l) m = ground (arith, count-append z l m)

-- Nothing is registered when all jobs of both lists have been deleted.
cleared_ids :
    (q : Queue) (z : ℕ)
    → IsConsistent q
    → (not (is_in z (q.jobs ++ q.delayed)) && IntSet.contains z q.id_to_job) ≡ false
cleared_ids q z k =
    ground
      (arith, is_in-count z (q.jobs ++ q.delayed), count-append z q.jobs q.delayed, k.listed_once z)

-- If the ids, the heap and the delayed jobs of a queue agree, Clear leaves neither a queued nor a
-- delayed job, whatever the deletions release, and no id is registered.
pub clear_leaves_nothing :
    (q : Queue)
    → IsConsistent q
    → ((clear q).jobs ≡ [])
      × ((clear q).delayed ≡ [])
      × ((z : ℕ) → IntSet.contains z (clear q).id_to_job ≡ false)
unfolding clear
clear_leaves_nothing q k =
    let hs = q.jobs ++ q.delayed in
    let (left, gone) =
      delete_each-IsConsistent hs (holding hs q) false
        (record { ids_ascend = k.ids_ascend; listed_once = k.listed_once }) in
    let none_left : (z : ℕ) → IntSet.contains z (clear q).id_to_job ≡ false =
      λ z. gone z ∙ cleared_ids q z k in
    (
      nil_of_counts (clear q).jobs (λ z. ground (arith, left.listed_once z, none_left z)),
      nil_of_counts (clear q).delayed (λ z. ground (arith, left.listed_once z, none_left z)),
      none_left,
    )

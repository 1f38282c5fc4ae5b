-- ===== src/Master/JobQueue/Keeping.antt =====
-- What the deletion of a job does to the heap and to the delayed jobs.
use prun.Base.{
  ℕ, ◌+◌, ◌-◌, ◌≤◌, ◌≡◌, refl, ◌∙◌, Bool, true, false, Option, none, some, List, [], ◌∷◌, Text,
  is_empty, ◌==◌, ltb, if◌then◌else◌, arith, Bool-cases, inl, inr,
}
use prun.Base.Int.{pos, ltb_ℤ, ◌-ℤ◌}
use prun.Containers.IntSet.{IntSet}
use prun.Master.JobStore.{
  Queue, update, behind, push_heap, make_heap, push, is_in, emit, remove, callback, name_released,
}
use prun.Master.JobQueue.{
  on_job_dependencies_resolved, is_alive, complete_edge, complete_edges, on_job_completion,
  out_jobs, leave_group, release_last, on_job_deletion, forget_name, take_out, remove_first,
  erase_name,
}
use prun.Master.JobQueue.Dependencies.{count}

abbrev pub one_if : Bool → ℕ
one_if b = if b then 1 else 0

pub count-push_heap :
    (lt : ℕ → ℕ → Bool) (x z : ℕ) (l : List ℕ)
    → count z (push_heap lt x l) ≡ one_if (x == z) + count z l
unfolding push_heap
count-push_heap lt x z [] = ground arith
count-push_heap lt x z (y ∷ l) = ground (arith, count-push_heap lt x z l)

count-make_heap : (lt : ℕ → ℕ → Bool) (z : ℕ) (l : List ℕ) → count z (make_heap lt l) ≡ count z l
unfolding make_heap
count-make_heap lt z [] = refl
count-make_heap lt z (x ∷ l) =
    count-push_heap lt x z (make_heap lt l) ∙ ground (arith, count-make_heap lt z l)

count-remove_first :
    (h z : ℕ) (l : List ℕ) → count z (remove_first h l) ≡ count z l - one_if (h == z)
unfolding remove_first
count-remove_first h z [] = ground arith
count-remove_first h z (x ∷ l) = ground (arith, count-remove_first h z l)

count-remove : (h z : ℕ) (l : List ℕ) → count z (remove h l) ≡ (if h == z then 0 else count z l)
unfolding remove
count-remove h z [] = ground arith
count-remove h z (x ∷ l) = ground (arith, count-remove h z l)

pub is_in-count : (h : ℕ) (l : List ℕ) → is_in h l ≡ ltb 0 (count h l)
unfolding is_in
is_in-count h [] = refl
is_in-count h (x ∷ l) = ground (arith, is_in-count h l)

-- Each job is in the heap or among the delayed jobs as often as `c` says, and the ids are these.
abbrev pub Keeps : (ℕ → ℕ) → IntSet → Queue → Type 0
Keeps c ids q = (q.id_to_job ≡ ids) × ((z : ℕ) → count z q.jobs + count z q.delayed ≡ c z)

abbrev pub fewer : ℕ → Queue → Queue
fewer x q = record q {
  job_of =
      update q.job_of x (record (q.job_of x) { num_depends = (q.job_of x).num_depends -ℤ pos 1 });
}

module _ (c : ℕ → ℕ) (ids : IntSet) (small : (z : ℕ) → c z ≤ 1) where
  pub if-Keeps :
      (b : Bool) (q r : Queue) → Keeps c ids q → Keeps c ids r → Keeps c ids (if b then q else r)
  if-Keeps true q r o p = o
  if-Keeps false q r o p = p

  moved-Keeps :
      (h : ℕ) (q : Queue)
      → is_in h q.delayed ≡ true
      → Keeps c ids q
      → Keeps c ids (record (push h q) { delayed = remove h q.delayed })
  moved-Keeps h q d k = (
    k.0,
    λ z. ground (
      arith,
      count-push_heap (behind q.job_of) h z q.jobs,
      count-remove h z q.delayed,
      is_in-count h q.delayed,
      small z,
      k.1 z,
    ),
  )

  resolved-Keeps :
      (h : ℕ) (q : Queue) → Keeps c ids q → Keeps c ids (on_job_dependencies_resolved h q)
  unfolding on_job_dependencies_resolved
  resolved-Keeps h q k = elim (Bool-cases (is_in h q.delayed)) [
    | inl e ↦ rw (e, on_job_dependencies_resolved) (moved-Keeps h q e k)
    | inr e ↦ rw (e, on_job_dependencies_resolved) k
  ]

  complete_edge-Keeps : (h : ℕ) (q : Queue) → Keeps c ids q → Keeps c ids (complete_edge h q)
  unfolding complete_edge
  complete_edge-Keeps h q k =
      let r : Queue = fewer h q in
      if-Keeps (is_alive h q)
        (if ltb_ℤ (q.job_of h).num_depends (pos 2) then on_job_dependencies_resolved h r else r) q
        (if-Keeps (ltb_ℤ (q.job_of h).num_depends (pos 2)) (on_job_dependencies_resolved h r) r
          (resolved-Keeps h r k) k)
        k

  complete_edges-Keeps :
      (hs : List ℕ) (q : Queue) → Keeps c ids q → Keeps c ids (complete_edges hs q)
  unfolding complete_edges
  complete_edges-Keeps [] q k = k
  complete_edges-Keeps (h ∷ hs) q k =
      complete_edges-Keeps hs (complete_edge h q) (complete_edge-Keeps h q k)

  on_job_completion-Keeps :
      (g v : ℕ) (q : Queue) → Keeps c ids q → Keeps c ids (on_job_completion g v q).0
  unfolding on_job_completion
  on_job_completion-Keeps g v q k =
      complete_edges-Keeps (out_jobs v (q.group_of g).edges (q.group_of g).index_to_job) q k

  release_last-Keeps :
      (b : Bool) (n : Text) (q : Queue) → Keeps c ids q → Keeps c ids (release_last b n q)
  release_last-Keeps true n q k = k
  release_last-Keeps false n q k = k

  leave_group-Keeps :
      (g : Option ℕ) (h : ℕ) (q : Queue) → Keeps c ids q → Keeps c ids (leave_group g h q)
  leave_group-Keeps none h q k = k
  leave_group-Keeps (some g) h q k =
      release_last-Keeps _ _ _ (on_job_completion-Keeps g (q.job_of h).vertex _ k)

  pub on_job_deletion-Keeps :
      (h : ℕ) (q : Queue) → Keeps c ids q → Keeps c ids (on_job_deletion h q)
  unfolding on_job_deletion
  on_job_deletion-Keeps h q k = leave_group-Keeps (q.job_of h).job_group h (emit (callback h) q) k

  pub forget_name-Keeps : (n : Text) (q : Queue) → Keeps c ids q → Keeps c ids (forget_name n q)
  forget_name-Keeps n q k =
      if-Keeps (is_empty n) q (emit (name_released n) (record q { names = erase_name n q.names })) k
        k

  pub take_out-Keeps :
      (h : ℕ) (q : Queue) → Keeps c ids q → Keeps (λ z. c z - one_if (h == z)) ids (take_out h q)
  take_out-Keeps h q k = elim (Bool-cases (is_in h q.jobs)) [
    | inl e ↦ rw e (
      k.0,
      λ z. ground (
        arith,
        count-make_heap (behind q.job_of) z (remove_first h q.jobs),
        count-remove_first h z q.jobs,
        is_in-count h q.jobs,
        k.1 z,
      ),
    )
    | inr e ↦
        rw e (
          k.0,
          λ z. ground (arith, count-remove h z q.delayed, is_in-count h q.jobs, k.1 z, small z),
        )
  ]

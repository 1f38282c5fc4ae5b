-- ===== src/Master/JobManager/Filling.antt =====
-- JobQueue::PushJobs (master/job.cpp): the heap is not empty when one of the jobs waits for none.
use prun.Base.{
  ℕ, ◌≡◌, refl, sym, ap, subst, ◌∙◌, Bool, true, false, ◌||◌, List, [], ◌∷◌, Text, is_empty, ◌==◌,
  arith, Bool-cases, inl, inr,
}
use prun.Base.Int.{ℤ, pos, ltb_ℤ}
use prun.Master.JobStore.{
  update_other, update_self, Job, Queue, push_heap, push, insert_delayed, is_in, behind,
}
use prun.Master.JobQueue.{add_name, register, push_one, push_each}

abbrev pub depends : ℕ → Queue → ℤ
depends x q = (q.job_of x).num_depends

push_heap_full : (lt : ℕ → ℕ → Bool) (x : ℕ) (l : List ℕ) → is_empty (push_heap lt x l) ≡ false
unfolding push_heap
push_heap_full lt x [] = refl
push_heap_full lt x (y ∷ l) = ground arith

add_name-jobs :
    (n : Text) (h : ℕ) (q : Queue)
    → ((add_name n h q).jobs ≡ q.jobs) × ((add_name n h q).job_of ≡ q.job_of)
add_name-jobs [] h q = (refl, refl)
add_name-jobs (c ∷ n) h q = (refl, refl)

register-depends : (g : ℤ) (h x : ℕ) (q : Queue) → depends x (register g h q) ≡ depends x q
register-depends g h x q = elim (Bool-cases (h == x)) [
  | inl e ↦
      let f : h ≡ x = ground arith in
      ap (λ y. depends y (register g h q)) (sym f)
      ∙ ap (λ (j : Job). j.num_depends)
          (update_self q.job_of h (record (q.job_of h) { group_id = g }))
      ∙ ap (λ y. depends y q) f
  | inr e ↦
      ap (λ (j : Job). j.num_depends)
        (update_other q.job_of h x (record (q.job_of h) { group_id = g }) e)
]

-- What PushJobs does before it looks at the number of dependencies
abbrev prepared : Text → ℤ → ℕ → Queue → Queue
prepared n g h q = add_name (q.job_of h).name h (add_name n h (register g h q))

prepared_same :
    (n : Text) (g : ℤ) (h x : ℕ) (q : Queue)
    → ((prepared n g h q).jobs ≡ q.jobs) × (depends x (prepared n g h q) ≡ depends x q)
prepared_same n g h x q =
    let (a, b) = add_name-jobs (q.job_of h).name h (add_name n h (register g h q)) in
    let (c, d) = add_name-jobs n h (register g h q) in
    (a ∙ c, ap (λ f. (f x).num_depends) (b ∙ d) ∙ register-depends g h x q)

waits : ℕ → Queue → Bool
waits h q = ltb_ℤ (pos 0) (depends h q) || ltb_ℤ (depends h q) (pos 0)

delayed : ℕ → Queue → Queue
delayed h r = record r { delayed = insert_delayed h r.delayed }

push_one_cases :
    (P : Queue → Type 0) (n : Text) (g : ℤ) (h : ℕ) (q : Queue)
    → (waits h q ≡ true → P (delayed h (prepared n g h q)))
    → P (push h (prepared n g h q))
    → P (push_one n g h q)
unfolding push_one waits delayed
push_one_cases P n g h q a b = elim (Bool-cases (waits h q)) [
  | inl e ↦ rw (e, push_one) (a e)
  | inr e ↦ rw (e, push_one) b
]

push_one-depends :
    (n : Text) (g : ℤ) (h x : ℕ) (q : Queue) → depends x (push_one n g h q) ≡ depends x q
unfolding delayed
push_one-depends n g h x q =
    let e = (prepared_same n g h x q).1 in
    push_one_cases (λ r. depends x r ≡ depends x q) n g h q (λ w. e) e

abbrev pub Full : Queue → Type 0
Full q = is_empty q.jobs ≡ false

pushed-Full : (h : ℕ) (q : Queue) → Full (push h q)
pushed-Full h q = push_heap_full (behind q.job_of) h q.jobs

push_one-Full : (n : Text) (g : ℤ) (h : ℕ) (q : Queue) → Full q → Full (push_one n g h q)
unfolding delayed
push_one-Full n g h q e =
    push_one_cases Full n g h q (λ w. ap is_empty (prepared_same n g h h q).0 ∙ e)
      (pushed-Full h (prepared n g h q))

no_wait : (h : ℕ) (q : Queue) → depends h q ≡ pos 0 → waits h q ≡ false
unfolding waits
no_wait h q e = rw e refl

push_one_free :
    (n : Text) (g : ℤ) (h : ℕ) (q : Queue) → depends h q ≡ pos 0 → Full (push_one n g h q)
push_one_free n g h q e =
    push_one_cases Full n g h q (λ w. let f = no_wait h q e in absurd (ground arith))
      (pushed-Full h (prepared n g h q))

push_each-Full : (n : Text) (g : ℤ) (hs : List ℕ) (q : Queue) → Full q → Full (push_each n g hs q)
unfolding push_each
push_each-Full n g [] q e = e
push_each-Full n g (h ∷ hs) q e = push_each-Full n g hs (push_one n g h q) (push_one-Full n g h q e)

pub push_each_free :
    (n : Text) (g : ℤ) (hs : List ℕ) (x : ℕ) (q : Queue)
    → is_in x hs ≡ true
    → depends x q ≡ pos 0
    → Full (push_each n g hs q)
unfolding push_each is_in
push_each_free n g [] x q m e = absurd (ground arith)
push_each_free n g (h ∷ hs) x q m e = elim (Bool-cases (h == x)) [
  | inl t ↦
      let f : x ≡ h = ground arith in
      push_each-Full n g hs (push_one n g h q)
        (push_one_free n g h q (subst (λ y. depends y q ≡ pos 0) f e))
  | inr t ↦
      push_each_free n g hs x (push_one n g h q) (ground arith) (push_one-depends n g h x q ∙ e)
]

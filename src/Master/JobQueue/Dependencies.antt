-- ===== src/Master/JobQueue/Dependencies.antt =====
-- One edge of JobGroup::OnJobCompletion: what it does to the job at its end, and to another job.
use prun.Base.{
  ℕ, suc, ◌≡◌, refl, sym, subst, ◌∙◌, ap, Bool, true, false, List, [], ◌∷◌, ◌==◌, if◌then◌else◌,
  arith,
}
use prun.Base.Int.{pos, ltb_ℤ, ◌-ℤ◌}
use prun.Master.JobStore.{Queue, update, behind, push, is_in, emit, unknown_delayed, remove}
use prun.Master.JobQueue.{on_job_dependencies_resolved, is_alive, complete_edge}
use prun.Master.JobQueue.Heap.{is_in-push_heap}

-- How many of the jobs are this one.
abbrev pub count : ℕ → List ℕ → ℕ
count h [] = 0
count h (x ∷ l) = if x == h then suc (count h l) else count h l

is_in-remove : (h x : ℕ) (l : List ℕ) → (x == h) ≡ false → is_in h (remove x l) ≡ is_in h l
unfolding is_in remove
is_in-remove h x [] n = refl
is_in-remove h x (y ∷ l) n = ground (arith, is_in-remove h x l)

pub is_in-remove_same : (h : ℕ) (l : List ℕ) → is_in h (remove h l) ≡ false
unfolding is_in remove
is_in-remove_same h [] = refl
is_in-remove_same h (y ∷ l) = ground (arith, is_in-remove_same h l)

-- The queue treats a job the same way.
abbrev Agree : ℕ → Queue → Queue → Type 0
Agree h q r =
    ((r.job_of h).num_depends ≡ (q.job_of h).num_depends)
    × (is_in h r.delayed ≡ is_in h q.delayed)
    × (is_in h r.jobs ≡ is_in h q.jobs)

if-Agree :
    (h : ℕ) (b : Bool) (q r s : Queue) → Agree h q r → Agree h q s → Agree h q (if b then r else s)
if-Agree h true q r s o p = o
if-Agree h false q r s o p = p

abbrev fewer : ℕ → Queue → Queue
fewer x q = record q {
  job_of =
      update q.job_of x (record (q.job_of x) { num_depends = (q.job_of x).num_depends -ℤ pos 1 });
}

num_depends-fewer :
    (x h : ℕ) (q : Queue)
    → (x == h) ≡ false
    → ((fewer x q).job_of h).num_depends ≡ (q.job_of h).num_depends
unfolding update
num_depends-fewer x h q n = rw n refl

resolved-Agree :
    (x h : ℕ) (q : Queue) → (x == h) ≡ false → Agree h q (on_job_dependencies_resolved x q)
unfolding on_job_dependencies_resolved
resolved-Agree x h q n =
    if-Agree h (is_in x q.delayed) q (record (push x q) { delayed = remove x q.delayed })
      (emit (unknown_delayed x) q)
      (refl, is_in-remove h x q.delayed n, is_in-push_heap (behind q.job_of) x h q.jobs ∙ rw n refl)
      (refl, refl, refl)

Agree-trans : (h : ℕ) (q r s : Queue) → Agree h q r → Agree h r s → Agree h q s
Agree-trans h q r s a b = (b.0 ∙ a.0, b.1 ∙ a.1, b.2 ∙ a.2)

pub complete_edge-Agree : (x h : ℕ) (q : Queue) → (x == h) ≡ false → Agree h q (complete_edge x q)
unfolding complete_edge
complete_edge-Agree x h q n =
    let a : Agree h q (fewer x q) = (num_depends-fewer x h q n, refl, refl) in
    if-Agree h (is_alive x q) q _ q
      (if-Agree h (ltb_ℤ (q.job_of x).num_depends (pos 2)) q
        (on_job_dependencies_resolved x (fewer x q)) (fewer x q)
        (Agree-trans h q (fewer x q) (on_job_dependencies_resolved x (fewer x q)) a
          (resolved-Agree x h (fewer x q) n))
        a)
      (refl, refl, refl)

-- A job that waits for `n` others.
abbrev pub IsWaiting : ℕ → ℕ → Queue → Type 0
IsWaiting n h q = ((q.job_of h).num_depends ≡ pos n) × (is_in h q.delayed ≡ true)

-- A job that waits for none any more.
abbrev pub IsResolved : ℕ → Queue → Type 0
IsResolved h q = (is_in h q.delayed ≡ false) × (is_in h q.jobs ≡ true)

is_alive-delayed : (h : ℕ) (q : Queue) → is_in h q.delayed ≡ true → is_alive h q ≡ true
unfolding is_alive
is_alive-delayed h q d = ground arith

complete_edge_last :
    (h : ℕ) (q : Queue)
    → IsWaiting 1 h q
    → complete_edge h q ≡ on_job_dependencies_resolved h (fewer h q)
unfolding complete_edge
complete_edge_last h q w = rw (is_alive-delayed h q w.1, w.0, complete_edge) refl

on_job_dependencies_resolved-IsResolved :
    (h : ℕ) (q : Queue) → is_in h q.delayed ≡ true → IsResolved h (on_job_dependencies_resolved h q)
unfolding on_job_dependencies_resolved
on_job_dependencies_resolved-IsResolved h q d =
    rw (d, on_job_dependencies_resolved)
      (is_in-remove_same h q.delayed, is_in-push_heap (behind q.job_of) h h q.jobs ∙ ground arith)

complete_edge-IsResolved : (h : ℕ) (q : Queue) → IsWaiting 1 h q → IsResolved h (complete_edge h q)
complete_edge-IsResolved h q w =
    rw (complete_edge_last h q w) (on_job_dependencies_resolved-IsResolved h (fewer h q) w.1)

eqb_refl : (n : ℕ) → (n == n) ≡ true
eqb_refl n = ground arith

eqb_sound : (x h : ℕ) → (x == h) ≡ true → x ≡ h
eqb_sound x h e = ground arith

less_one : (n : ℕ) → (pos (suc n) -ℤ pos 1) ≡ pos n
unfolding ◌-ℤ◌
less_one n = ground arith

ltb_two : (n : ℕ) → ltb_ℤ (pos (suc (suc n))) (pos 2) ≡ false
ltb_two n = ground arith

complete_edge_more :
    (n h : ℕ) (q : Queue) → IsWaiting (suc (suc n)) h q → complete_edge h q ≡ fewer h q
unfolding complete_edge
complete_edge_more n h q w = rw (is_alive-delayed h q w.1, w.0, ltb_two n, complete_edge) refl

fewer-IsWaiting : (n h : ℕ) (q : Queue) → IsWaiting (suc n) h q → IsWaiting n h (fewer h q)
unfolding update
fewer-IsWaiting n h q w = rw (eqb_refl h, w.0) (less_one n, w.1)

complete_edge-IsWaiting :
    (n h : ℕ) (q : Queue) → IsWaiting (suc (suc n)) h q → IsWaiting (suc n) h (complete_edge h q)
complete_edge-IsWaiting n h q w = rw (complete_edge_more n h q w) (fewer-IsWaiting (suc n) h q w)

pub Agree-IsWaiting : (n h : ℕ) (q r : Queue) → Agree h q r → IsWaiting n h q → IsWaiting n h r
Agree-IsWaiting n h q r a w = (a.0 ∙ w.0, a.1 ∙ w.1)

pub Agree-IsResolved : (h : ℕ) (q r : Queue) → Agree h q r → IsResolved h q → IsResolved h r
Agree-IsResolved h q r a w = (a.1 ∙ w.0, a.2 ∙ w.1)

pub IsWaiting-eq : (m n h : ℕ) (q : Queue) → m ≡ n → IsWaiting m h q → IsWaiting n h q
IsWaiting-eq m n h q e w = (w.0 ∙ ap pos e, w.1)

pub step-IsWaiting :
    (n x h : ℕ) (q : Queue)
    → (x == h) ≡ true
    → IsWaiting (suc (suc n)) h q
    → IsWaiting (suc n) h (complete_edge x q)
step-IsWaiting n x h q e w =
    subst (λ y. IsWaiting (suc n) h (complete_edge y q)) (sym (eqb_sound x h e))
      (complete_edge-IsWaiting n h q w)

pub step-IsResolved :
    (x h : ℕ) (q : Queue) → (x == h) ≡ true → IsWaiting 1 h q → IsResolved h (complete_edge x q)
step-IsResolved x h q e w =
    subst (λ y. IsResolved h (complete_edge y q)) (sym (eqb_sound x h e))
      (complete_edge-IsResolved h q w)

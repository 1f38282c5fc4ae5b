-- ===== src/Master/JobQueue/Consistency.antt =====
-- The job queue's three views of its jobs agree: the ids, the heap and the delayed jobs; PushJob and
-- PopJob keep them so.
use prun.Base.{
  ℕ, ◌+◌, ◌≤◌, ◌≡◌, refl, subst, sym, ap, ◌∙◌, false, ◌||◌, none, some, List, [], ◌∷◌, Text, ◌==◌,
  arith, inl, inr, ◌⊎◌,
}
use prun.Base.Int.{ℤ, pos, ltb_ℤ}
use prun.Containers.IntSet
use prun.Containers.IntSet.{IntSet}
use prun.Master.JobStore.{Queue, behind, push, is_in, insert_delayed}
use prun.Master.JobQueue.{
  add_name, register, push_job, push_one, push_each, push_jobs, group_name, pop_job,
}
use prun.Master.JobQueue.Dependencies.{count}
use prun.Master.JobQueue.Keeping.{is_in-count, one_if, Keeps, if-Keeps, count-push_heap}

-- Each job whose id is registered is in the heap or among the delayed jobs, once and not in both,
-- and there is no other.
pub record IsConsistent (q : Queue) : Type 0 where
  pub ids_ascend : IntSet.Ascending q.id_to_job
  pub listed_once :
      (z : ℕ) → count z q.jobs + count z q.delayed ≡ one_if (IntSet.contains z q.id_to_job)

abbrev pub registered : Queue → ℕ → ℕ
registered q z = one_if (IntSet.contains z q.id_to_job)

pub registered_small : (q : Queue) (z : ℕ) → registered q z ≤ 1
registered_small q z = ground arith

pub Keeps-IsConsistent :
    (c : ℕ → ℕ) (ids : IntSet) (q : Queue)
    → IntSet.Ascending ids
    → ((z : ℕ) → c z ≡ one_if (IntSet.contains z ids))
    → Keeps c ids q
    → IsConsistent q
Keeps-IsConsistent c ids q a h k = record {
  ids_ascend = rw k.0 a;
  listed_once = λ z. k.1 z ∙ h z ∙ ap (λ i. one_if (IntSet.contains z i)) (sym k.0);
}

-- A job that PopJob returns is in none of the views any more, and they agree in what is left.
abbrev pub Pops : Queue → Type 0
Pops q =
    (pop_job q ≡ none)
    ⊎ ((h : ℕ) × (q' : Queue) × (pop_job q ≡ some (h, q'))
        × (IntSet.contains h q'.id_to_job ≡ false)
        × IsConsistent q')

pop_job-front :
    (q : Queue) (l : List ℕ) → IsConsistent (record q { jobs = l }) → Pops (record q { jobs = l })
unfolding pop_job
pop_job-front q [] k = inl refl
pop_job-front q (h ∷ l) k = inr (
  h,
  _,
  refl,
  ground (arith, IntSet.contains-erase h h q.id_to_job k.ids_ascend),
  record {
    ids_ascend = IntSet.erase-Ascending h q.id_to_job k.ids_ascend;
    listed_once =
        λ z. ground (arith, k.listed_once z, IntSet.contains-erase h z q.id_to_job k.ids_ascend);
  },
)

-- If the ids, the heap and the delayed jobs of a queue agree, PopJob returns nothing, or a job
-- whose id is not registered any more; and then they agree in what is left.
pub pop_job-Pops : (q : Queue) → IsConsistent q → Pops q
pop_job-Pops q k = pop_job-front q q.jobs k

add_name-Keeps :
    (c : ℕ → ℕ) (ids : IntSet) (n : Text) (h : ℕ) (q : Queue)
    → Keeps c ids q
    → Keeps c ids (add_name n h q)
add_name-Keeps c ids [] h q k = k
add_name-Keeps c ids (x ∷ n) h q k = k

abbrev with_job : ℕ → Queue → ℕ → ℕ
with_job h q z = one_if (h == z) + registered q z

push-Keeps :
    (h : ℕ) (ids : IntSet) (q r : Queue)
    → Keeps (registered q) ids r
    → Keeps (with_job h q) ids (push h r)
push-Keeps h ids q r k =
    (k.0, λ z. ground (arith, count-push_heap (behind r.job_of) h z r.jobs, k.1 z))

delay-Keeps :
    (h : ℕ) (ids : IntSet) (q r : Queue)
    → IntSet.contains h q.id_to_job ≡ false
    → Keeps (registered q) ids r
    → Keeps (with_job h q) ids (record r { delayed = insert_delayed h r.delayed })
unfolding insert_delayed
delay-Keeps h ids q r n k =
    let absent : is_in h r.delayed ≡ false = ground (arith, is_in-count h r.delayed, k.1 h) in
    (k.0, λ z. rw absent (ground (arith, k.1 z)))

with_job-IsConsistent :
    (h : ℕ) (q r : Queue)
    → IntSet.contains h q.id_to_job ≡ false
    → IsConsistent q
    → Keeps (with_job h q) (IntSet.insert h q.id_to_job) r
    → IsConsistent r
with_job-IsConsistent h q r n k =
    Keeps-IsConsistent (with_job h q) (IntSet.insert h q.id_to_job) r
      (IntSet.insert-Ascending h q.id_to_job k.ids_ascend)
      (λ z. ground (arith, IntSet.contains-insert h z q.id_to_job))

-- PushJob of a job whose id is not registered keeps the views in agreement.
pub push_job-IsConsistent :
    (h : ℕ) (g : ℤ) (q : Queue)
    → IntSet.contains h q.id_to_job ≡ false
    → IsConsistent q
    → IsConsistent (push_job h g q)
unfolding push_job
push_job-IsConsistent h g q n k =
    let r = register g h q in
    let s = add_name (r.job_of h).name h r in
    let ids = IntSet.insert h q.id_to_job in
    with_job-IsConsistent h q (push h s) n k (
      push-Keeps h ids q s
        (add_name-Keeps (registered q) ids (r.job_of h).name h r (refl, k.listed_once)))

push_one-Keeps :
    (m : Text) (g : ℤ) (h : ℕ) (q : Queue)
    → IntSet.contains h q.id_to_job ≡ false
    → IsConsistent q
    → Keeps (with_job h q) (IntSet.insert h q.id_to_job) (push_one m g h q)
unfolding push_one
push_one-Keeps m g h q n k =
    let r = register g h q in
    let s = add_name m h r in
    let t = add_name (q.job_of h).name h s in
    let ids = IntSet.insert h q.id_to_job in
    let d = (q.job_of h).num_depends in
    let named : Keeps (registered q) ids t =
      add_name-Keeps (registered q) ids (q.job_of h).name h s
        (add_name-Keeps (registered q) ids m h r (refl, k.listed_once)) in
    if-Keeps (with_job h q) ids (λ z. ground (arith, n)) (ltb_ℤ (pos 0) d || ltb_ℤ d (pos 0))
      (record t { delayed = insert_delayed h t.delayed }) (push h t) (delay-Keeps h ids q t n named)
      (push-Keeps h ids q t named)

-- The ids are not registered, and differ from one another.
abbrev pub AreNew : List ℕ → IntSet → Type 0
AreNew [] s = Unit
AreNew (h ∷ hs) s = (IntSet.contains h s ≡ false) × (is_in h hs ≡ false) × AreNew hs s

AreNew-insert :
    (h : ℕ) (hs : List ℕ) (s : IntSet)
    → is_in h hs ≡ false
    → AreNew hs s
    → AreNew hs (IntSet.insert h s)
unfolding is_in
AreNew-insert h [] s n a = tt
AreNew-insert h (x ∷ hs) s n a = ground (arith, IntSet.contains-insert h x s, AreNew-insert h hs s)

push_each-IsConsistent :
    (m : Text) (g : ℤ) (hs : List ℕ) (q : Queue)
    → AreNew hs q.id_to_job
    → IsConsistent q
    → IsConsistent (push_each m g hs q)
unfolding push_each
push_each-IsConsistent m g [] q a k = k
push_each-IsConsistent m g (h ∷ hs) q a k =
    let one = push_one-Keeps m g h q a.0 k in
    push_each-IsConsistent m g hs (push_one m g h q)
      (subst (AreNew hs) (sym one.0) (AreNew-insert h hs q.id_to_job a.1 a.2))
      (with_job-IsConsistent h q (push_one m g h q) a.0 k one)

-- If the ids, the heap and the delayed jobs of a queue agree, they do after PushJobs of jobs whose
-- ids differ from one another and are not registered.
pub push_jobs-IsConsistent :
    (h : ℕ) (hs : List ℕ) (g : ℤ) (q : Queue)
    → AreNew (h ∷ hs) q.id_to_job
    → IsConsistent q
    → IsConsistent (push_jobs h hs g q)
unfolding push_jobs
push_jobs-IsConsistent h hs g q a k =
    push_each-IsConsistent (group_name (q.job_of h).job_group q) g (h ∷ hs) q a k

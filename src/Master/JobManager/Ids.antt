-- ===== src/Master/JobManager/Ids.antt =====
-- The ids that JobManager gives: what PushJobs and its like do to the ids of the queue.
use prun.Base.{
  ℕ, suc, ◌+◌, ◌≤◌, ◌<◌, ◌≡◌, refl, ap, ◌∙◌, Bool, true, false, ◌&&◌, ◌||◌, List, [], ◌∷◌, Text,
  ltb, leb, length, if◌then◌else◌, arith,
}
use prun.Base.Int.{ℤ}
use prun.Containers.IntSet
use prun.Containers.IntSet.{IntSet}
use prun.Master.JobStore.{
  Queue, Event, name_released, callback, job_deleted, unknown_delayed, is_in,
}
use prun.Master.JobQueue.{add_name, register, push_one, push_each, push_jobs, group_name}
use prun.Master.JobQueue.Consistency.{AreNew}
use prun.Master.JobManager.Descriptions.{NewJob}
use prun.Master.JobManager.{
  Manager, release_job_name, settle_one, settle_each, ids_from, register_job_name, push_timeouts,
}

-- The parts of a manager that its calls leave alone
abbrev pub Same : Manager → Manager → Type 0
Same m n =
    (n.queue ≡ m.queue)
    × (n.job_id ≡ m.job_id)
    × (n.num_job_groups ≡ m.num_job_groups)
    × (n.callbacks ≡ m.callbacks)

release-Same : (n : Text) (m : Manager) → Same m (release_job_name n m).0
unfolding release_job_name
release-Same n m = ground arith

settle_one-Same : (e : Event) (m : Manager) → Same m (settle_one e m)
unfolding settle_one
settle_one-Same (name_released n) m = release-Same n m
settle_one-Same (callback h) m = (refl, refl, refl, refl)
settle_one-Same (job_deleted h) m = (refl, refl, refl, refl)
settle_one-Same (unknown_delayed h) m = (refl, refl, refl, refl)

pub settle_each-Same : (es : List Event) (m : Manager) → Same m (settle_each es m)
unfolding settle_each
settle_each-Same [] m = (refl, refl, refl, refl)
settle_each-Same (e ∷ es) m =
    let (a, b, c, d) = settle_each-Same es (settle_one e m) in
    let (a', b', c', d') = settle_one-Same e m in (a ∙ a', b ∙ b', c ∙ c', d ∙ d')

pub register-Same : (n : Text) (m : Manager) → Same m (register_job_name n m)
unfolding register_job_name
register-Same n m = ground arith

pub push_timeouts-queue :
    (second now i : ℕ) (js : List NewJob) (m : Manager)
    → ((push_timeouts second now i js m).queue ≡ m.queue)
      × ((push_timeouts second now i js m).job_id ≡ m.job_id)
unfolding push_timeouts
push_timeouts-queue second now i [] m = (refl, refl)
push_timeouts-queue second now i (j ∷ js) m = push_timeouts-queue second now (suc i) js _

pub add_name-ids : (n : Text) (h : ℕ) (q : Queue) → (add_name n h q).id_to_job ≡ q.id_to_job
add_name-ids [] h q = refl
add_name-ids (c ∷ n) h q = refl

if-ids :
    (b : Bool) (q r : Queue) (s : IntSet)
    → q.id_to_job ≡ s
    → r.id_to_job ≡ s
    → (if b then q else r).id_to_job ≡ s
if-ids true q r s e f = e
if-ids false q r s e f = f

push_one-ids :
    (n : Text) (g : ℤ) (h : ℕ) (q : Queue)
    → (push_one n g h q).id_to_job ≡ IntSet.insert h q.id_to_job
unfolding push_one
push_one-ids n g h q =
    let r = register g h q in
    let e = add_name-ids (q.job_of h).name h (add_name n h r) ∙ add_name-ids n h r in
    if-ids _ _ _ _ e e

push_each-ids :
    (n : Text) (g : ℤ) (hs : List ℕ) (q : Queue) (z : ℕ)
    → IntSet.contains z (push_each n g hs q).id_to_job
      ≡ (is_in z hs || IntSet.contains z q.id_to_job)
unfolding push_each is_in
push_each-ids n g [] q z = refl
push_each-ids n g (h ∷ hs) q z =
    push_each-ids n g hs (push_one n g h q) z
    ∙ ground (
      arith,
      push_one-ids n g h q,
      IntSet.contains-insert h z q.id_to_job,
      ap (IntSet.contains z) (push_one-ids n g h q),
    )

pub push_jobs-ids :
    (h : ℕ) (hs : List ℕ) (g : ℤ) (q : Queue) (z : ℕ)
    → IntSet.contains z (push_jobs h hs g q).id_to_job
      ≡ (is_in z (h ∷ hs) || IntSet.contains z q.id_to_job)
unfolding push_jobs
push_jobs-ids h hs g q z = push_each-ids (group_name (q.job_of h).job_group q) g (h ∷ hs) q z

-- The ids from `i` on, one for each job
pub is_in-ids_from :
    (i z : ℕ) (js : List NewJob) → is_in z (ids_from i js) ≡ (leb i z && ltb z (i + length js))
unfolding is_in ids_from
is_in-ids_from i z [] = ground arith
is_in-ids_from i z (j ∷ js) = ground (arith, is_in-ids_from (suc i) z js)

pub ids_from-AreNew :
    (i : ℕ) (js : List NewJob) (s : IntSet)
    → ((z : ℕ) → i ≤ z → z < i + length js → IntSet.contains z s ≡ false)
    → AreNew (ids_from i js) s
unfolding ids_from
ids_from-AreNew i [] s n = tt
ids_from-AreNew i (j ∷ js) s n = (
  n i (omega arith) (omega arith),
  is_in-ids_from (suc i) i js ∙ ground arith,
  ids_from-AreNew (suc i) js s (λ z a b. n z (omega arith) (omega arith)),
)

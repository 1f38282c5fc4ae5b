-- ===== src/Master/WorkerList/Setting.antt =====
-- The IP of a worker that is set, and what DeleteWorker leaves of the old one (master/worker.cpp).
use prun.Base.{
  ℕ, ◌≡◌, ◌≢◌, refl, sym, ap, ◌∙◌, Bool, true, false, ◌&&◌, some, Text, text_eq, text_eq_iff, ◌==◌,
  if◌then◌else◌, arith, Bool-cases, inl, inr,
}
use prun.Master.JobStore.{is_in, update}
use prun.Master.WorkerList.{
  WorkerList, find_ip, put_ip, delete_worker, set_node, set_worker_ip, get_worker_by_ip,
}
use prun.Master.WorkerList.Addresses.{IsConsistent, find_ip-erase_ip, loop_keeps}

-- The list that SetWorkerIP leaves for a worker of the list
abbrev with_ip : ℕ → Text → WorkerList → WorkerList
with_ip w ip l = record (set_node w (record (l.node_of w) { ip = ip }) l) {
  ip_to_worker = put_ip ip w l.ip_to_worker;
}

set_in :
    (w : ℕ) (ip : Text) (l : WorkerList)
    → is_in w l.workers ≡ true
    → (set_worker_ip w ip l).0 ≡ with_ip w ip l
unfolding set_worker_ip
set_in w ip l m = rw m refl

find_put :
    (w : ℕ) (ip q : Text) (l : WorkerList)
    → get_worker_by_ip q (with_ip w ip l) ≡ (if text_eq ip q then some w else get_worker_by_ip q l)
unfolding find_ip
find_put w ip q l = elim (Bool-cases (text_eq ip q)) [
  | inl e ↦ rw e refl
  | inr e ↦ rw e (find_ip-erase_ip ip q l.ip_to_worker ∙ rw e refl)
]

ip_same :
    (w v : ℕ) (ip : Text) (l : WorkerList)
    → ((with_ip w ip l).node_of v).ip ≡ (if w == v then ip else (l.node_of v).ip)
unfolding update
ip_same w v ip l = elim (Bool-cases (w == v)) [ inl e ↦ rw e refl | inr e ↦ rw e refl ]

some_same : (w v : ℕ) → some w ≡ some v → w ≡ v
some_same w v h = ground arith

picked : (w v : ℕ) (a b : Text) → w ≡ v → (if w == v then a else b) ≡ a
picked w v a b f = ground arith

-- If each IP in the map leads to a worker of the list that has this IP, and no other IP than the new
-- one leads to the worker, each IP in the map leads to a worker of the list that has this IP after
-- SetWorkerIP.
pub set_worker_ip-IsConsistent :
    (w : ℕ) (ip : Text) (l : WorkerList)
    → IsConsistent l
    → ((q : Text) → get_worker_by_ip q l ≡ some w → q ≡ ip)
    → IsConsistent (set_worker_ip w ip l).0
unfolding IsConsistent set_worker_ip
set_worker_ip-IsConsistent w ip l c u = elim (Bool-cases (is_in w l.workers)) [
  | inr e ↦ rw e c
  | inl e ↦ rw e (λ q v h.
      let k = find_put w ip q l in
      let s = ip_same w v ip l in
      elim (Bool-cases (text_eq ip q)) [
        | inl d ↦
            let f : w ≡ v = some_same w v (sym (k ∙ rw d refl) ∙ h) in
            let i = text_eq_iff ip q in (rw (sym f) e, s ∙ picked w v ip _ f ∙ i.0 d)
        | inr d ↦
            let o : get_worker_by_ip q l ≡ some v = sym (k ∙ rw d refl) ∙ h in
            let (m, i) = c q v o in
            let n = text_eq_iff ip q in
            (
              m,
              s ∙ elim (Bool-cases (w == v)) [
                | inl b ↦
                    let f : v ≡ w = ground arith in
                    let r : q ≡ ip = u q (o ∙ ap some f) in ground arith
                | inr b ↦ rw b i
              ],
            )
      ])
]

not_old :
    (w v : ℕ) (ip old : Text) (l : WorkerList)
    → ip ≢ old
    → ((l.node_of v).ip ≡ old → v ≡ w)
    → text_eq ((with_ip w ip l).node_of v).ip old ≡ false
unfolding update
not_old w v ip old l n u = elim (Bool-cases (w == v)) [
  | inl e ↦ let i = text_eq_iff ip old in rw e (ground arith)
  | inr e ↦ let i = text_eq_iff (l.node_of v).ip old in rw e (ground arith)
]

and_false : (a b : Bool) → b ≡ false → (a && b) ≡ false
and_false a b h = ground arith

-- If an IP leads to a worker of the list and no other worker of the list has it, and the worker gets
-- another IP, the old one still leads to the worker after DeleteWorker, whatever host is deleted.
pub set_worker_ip-stale :
    (w : ℕ) (ip old host : Text) (l : WorkerList)
    → is_in w l.workers ≡ true
    → get_worker_by_ip old l ≡ some w
    → ip ≢ old
    → ((v : ℕ) → is_in v l.workers ≡ true → (l.node_of v).ip ≡ old → v ≡ w)
    → get_worker_by_ip old (delete_worker host (set_worker_ip w ip l).0) ≡ some w
unfolding delete_worker
set_worker_ip-stale w ip old host l m g n u = rw (set_in w ip l m) (
    loop_keeps host l.workers old (with_ip w ip l)
      (λ v p. and_false _ _ (not_old w v ip old l n (u v p)))
    ∙ find_put w ip old l
    ∙ (let i = text_eq_iff ip old in ground arith))

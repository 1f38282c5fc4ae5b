-- ===== src/Master/WorkerManager/Thinning.antt =====
-- What WorkerList's operations (master/worker.cpp) do to the workers on a host.
use prun.Base.{
  ℕ, suc, ◌≡◌, refl, sym, ap, ◌∙◌, Bool, true, false, List, [], ◌∷◌, Text, text_eq, text_eq_iff,
  ◌==◌, if◌then◌else◌, arith, Bool-cases, inl, inr,
}
use prun.Master.JobStore.{update, is_in}
use prun.Master.Scheduler.{disabled}
use prun.Master.WorkerList
use prun.Master.WorkerList.{Node, WorkerList, delete_loop, disable, disable_each}
use prun.Master.WorkerList.Addresses.{step, step_same, loop_same, loop_left}
use prun.Master.WorkerManager.Counting.{count_host, SameHosts, count_host-same}

step-SameHosts :
    (host : Text) (v : ℕ) (l : WorkerList) → SameHosts l.node_of (step host v l).node_of
step-SameHosts host v l w = (step_same host v w l).0

count_host-if :
    (b : Bool) (h : Text) (f : ℕ → Node) (v : ℕ) (xs : List ℕ)
    → count_host h f (if b then xs else v ∷ xs)
      ≡ (if b then count_host h f xs else count_host h f (v ∷ xs))
count_host-if true h f v xs = refl
count_host-if false h f v xs = refl

delete_count :
    (host h x : Text) (n k : ℕ)
    → n ≡ (if text_eq host h then 0 else k)
    → (if text_eq x host then n else (if text_eq x h then suc n else n))
      ≡ (if text_eq host h then 0 else (if text_eq x h then suc k else k))
delete_count host h x n k e =
    ground (arith, text_eq_iff x host, text_eq_iff host h, text_eq_iff x h)

count_host-delete_loop :
    (host h : Text) (ws : List ℕ) (l : WorkerList)
    → count_host h l.node_of (delete_loop host ws l).1
      ≡ (if text_eq host h then 0 else count_host h l.node_of ws)
unfolding delete_loop count_host
count_host-delete_loop host h [] l = ground arith
count_host-delete_loop host h (v ∷ ws) l =
    let f = l.node_of in
    let l' = step host v l in
    let left = (delete_loop host ws l').1 in
    let same = step-SameHosts host v l in
    let r : count_host h f left ≡ (if text_eq host h then 0 else count_host h f ws) =
      sym (count_host-same h f l'.node_of left same)
      ∙ count_host-delete_loop host h ws l'
      ∙ ap (λ n. if text_eq host h then 0 else n) (count_host-same h f l'.node_of ws same) in
    count_host-if (text_eq (f v).host host) h f v left
    ∙ delete_count host h (f v).host (count_host h f left) (count_host h f ws) r

-- What an operation on one list does to all: the hosts of the workers stay, no worker comes in, and
-- the workers on the hosts that `gone` holds of leave.
pub record Thins (gone : Text → Bool) (f : WorkerList → WorkerList) : Type 0 where
  pub same_hosts : (l : WorkerList) → SameHosts l.node_of (f l).node_of
  pub left :
      (l : WorkerList) (h : Text)
      → count_host h l.node_of (f l).workers
        ≡ (if gone h then 0 else count_host h l.node_of l.workers)
  pub within : (l : WorkerList) (w : ℕ) → is_in w (f l).workers ≡ true → is_in w l.workers ≡ true

pub delete_worker-Thins : (host : Text) → Thins (text_eq host) (WorkerList.delete_worker host)
unfolding WorkerList.delete_worker
delete_worker-Thins host = record {
  same_hosts = λ l w. (loop_same host l.workers w l).0;
  left = λ l h. count_host-delete_loop host h l.workers l;
  within = λ l w e. ground (arith, loop_left host l.workers w l);
}

-- A change of a worker's fields that leaves its host
pub update-SameHosts :
    (f : ℕ → Node) (w : ℕ) (n : Node) → n.host ≡ (f w).host → SameHosts f (update f w n)
unfolding update
update-SameHosts f w n e v = elim (Bool-cases (w == v)) [
  | inl t ↦ let x : w ≡ v = ground arith in rw t (e ∙ ap (λ y. (f y).host) x)
  | inr t ↦ rw t refl
]

pub set_worker_ip-Thins :
    (w : ℕ) (ip : Text) → Thins (λ h. false) (λ l. (WorkerList.set_worker_ip w ip l).0)
unfolding WorkerList.set_worker_ip
set_worker_ip-Thins w ip = record {
  same_hosts = λ l. elim (Bool-cases (is_in w l.workers)) [
    | inl e ↦ rw e (update-SameHosts l.node_of w (record (l.node_of w) { ip = ip }) refl)
    | inr e ↦ rw e (λ v. refl)
  ];
  left = λ l h. elim (Bool-cases (is_in w l.workers)) [ inl e ↦ rw e refl | inr e ↦ rw e refl ];
  within = λ l v. elim (Bool-cases (is_in w l.workers)) [
    | inl e ↦ rw e (λ x. x)
    | inr e ↦ rw e (λ x. x)
  ];
}

disable_each-SameHosts :
    (ws : List ℕ) (l : WorkerList) → SameHosts l.node_of (disable_each ws l).node_of
unfolding disable_each
disable_each-SameHosts [] l w = refl
disable_each-SameHosts (v ∷ ws) l w =
    disable_each-SameHosts ws (disable v l) w
    ∙ update-SameHosts l.node_of v (record (l.node_of v) { state = disabled }) refl w

pub clear-SameHosts : (l : WorkerList) → SameHosts l.node_of (WorkerList.clear l).node_of
unfolding WorkerList.clear
clear-SameHosts l = disable_each-SameHosts l.workers l

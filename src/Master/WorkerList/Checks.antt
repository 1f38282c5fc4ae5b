-- ===== src/Master/WorkerList/Checks.antt =====
-- Tests of the model of WorkerList, and its theorems at concrete workers.
use prun.Base.{
  ℕ, ◌≡◌, ◌≢◌, refl, sym, Bool, true, false, Option, none, some, List, [], ◌∷◌, Text, codes, ◌==◌,
  if◌then◌else◌, arith, length, text_eq, text_eq_iff, inl, inr, Bool-cases,
}
use prun.Base.Int.{pos, ◌+ℤ◌}
use prun.Master.JobStore.{is_in, update}
use prun.Master.Scheduler.{not_avail, ready, exec, is_available}
use prun.Master.WorkerList.{
  Node, WorkerList, find_ip, erase_ip, delete_loop, delete_worker, clear, get_worker, set_worker_ip,
  get_worker_by_ip, add_worker, get_worker_list, available, sum_cpu, get_total_workers,
  get_total_cpu, get_num_workers, get_num_cpu,
}
use prun.Master.WorkerList.Addresses.{IsConsistent, delete_worker-IsConsistent}
use prun.Master.WorkerList.Setting.{set_worker_ip-stale}

abbrev first_ip : Text
first_ip = codes "10.0.0.1"

abbrev new_ip : Text
new_ip = codes "10.0.0.9"

-- Worker 0 is on the one host, workers 1 and 2 on the other
abbrev node_at : ℕ → Node
node_at w =
    if w == 0
    then record { host = codes "east"; ip = first_ip; state = ready; num_cpu = pos 4 }
    else record {
      host = codes "west";
      ip = codes "10.0.0.2";
      state = (if w == 1 then exec else not_avail);
      num_cpu = pos 2;
    }

abbrev list : WorkerList
list = record { node_of = node_at; workers = 0 ∷ 1 ∷ 2 ∷ []; ip_to_worker = (first_ip, 0) ∷ [] }

deleted : (delete_worker (codes "west") list).workers ≡ 0 ∷ []
unfolding delete_worker delete_loop erase_ip update
deleted = refl

cleared : (clear list).workers ≡ []
unfolding clear
cleared = refl

found : get_worker (codes "west") list.workers list ≡ some 1
unfolding get_worker
found = refl

listed : get_worker_list 6 list.workers list ≡ 0 ∷ 1 ∷ []
unfolding get_worker_list
listed = refl

added : get_num_workers 6 (add_worker 1 list) ≡ 3
unfolding get_worker_list
added = refl

totals : (get_total_workers list ≡ 2) × (get_total_cpu list ≡ pos 6) × (get_num_cpu 1 list ≡ pos 2)
unfolding available is_available sum_cpu get_worker_list prun.Base.Int.◌+ℤ◌
totals = (refl, refl, refl)

list-IsConsistent : IsConsistent list
unfolding IsConsistent find_ip is_in
list-IsConsistent ip w h =
    let i = text_eq_iff first_ip ip in
    let f : (first_ip ≡ ip) × (0 ≡ w) = ground arith in (rw (sym f.1) refl, rw (sym f.1) f.0)

delete_worker-IsConsistent_example :
    IsConsistent (delete_worker (codes "east") list)
    × ((ip : Text) (w : ℕ)
        → get_worker_by_ip ip (delete_worker (codes "east") list) ≡ some w
        → (list.node_of w).host ≢ codes "east")
delete_worker-IsConsistent_example =
    delete_worker-IsConsistent (codes "east") list list-IsConsistent

only_first : (q : Text) → get_worker_by_ip q list ≡ some 1 → q ≡ new_ip
unfolding find_ip
only_first q h = ground arith

east_only : (v : ℕ) → is_in v list.workers ≡ true → (list.node_of v).ip ≡ first_ip → v ≡ 0
unfolding is_in
east_only v m i = ground arith

set_worker_ip-stale_example :
    get_worker_by_ip first_ip (delete_worker (codes "east") (set_worker_ip 0 new_ip list).0)
    ≡ some 0
unfolding is_in find_ip
set_worker_ip-stale_example =
    set_worker_ip-stale 0 new_ip first_ip (codes "east") list refl refl (λ h. ground arith)
      east_only

-- ===== src/Master/WorkerList.antt =====
-- WorkerList of master/worker.h and master/worker.cpp. A worker object is named by a number.
pub mod Addresses
pub mod Setting
mod Checks
use prun.Base.{
  ℕ, zero, suc, ◌+◌, ◌/◌, ◌%◌, Bool, true, false, ◌||◌, Option, none, some, List, [], ◌∷◌, ◌++◌,
  length, Text, text_eq, ◌==◌, if◌then◌else◌,
}
use prun.Base.Int.{ℤ, pos, ◌+ℤ◌}
use prun.Master.JobStore.{is_in, update}
use prun.Master.Scheduler.{WorkerState, not_avail, ready, exec, disabled, is_available}

-- The fields of a Worker that the list uses
pub record Node : Type 0 where
  pub host : Text
  pub ip : Text
  pub state : WorkerState
  pub num_cpu : ℤ

-- `ip_to_worker` has each key at most once; its order does not matter.
pub record WorkerList : Type 0 where
  pub node_of : ℕ → Node
  pub workers : List ℕ
  pub ip_to_worker : List (Text × ℕ)

unfoldable pub find_ip : Text → List (Text × ℕ) → Option ℕ
find_ip ip [] = none
find_ip ip ((k, w) ∷ m) = if text_eq k ip then some w else find_ip ip m

unfoldable pub erase_ip : Text → List (Text × ℕ) → List (Text × ℕ)
erase_ip ip [] = []
erase_ip ip ((k, w) ∷ m) = let rest = erase_ip ip m in if text_eq k ip then rest else (k, w) ∷ rest

abbrev pub put_ip : Text → ℕ → List (Text × ℕ) → List (Text × ℕ)
put_ip ip w m = (ip, w) ∷ erase_ip ip m

abbrev pub set_node : ℕ → Node → WorkerList → WorkerList
set_node w n l = record l { node_of = update l.node_of w n }

abbrev pub disable : ℕ → WorkerList → WorkerList
disable w l = set_node w (record (l.node_of w) { state = disabled }) l

-- AddWorker
abbrev pub add_worker : ℕ → WorkerList → WorkerList
add_worker w l = record l { workers = l.workers ++ w ∷ [] }

-- The part of the loop of DeleteWorker that handles a worker of the host
abbrev pub forget : ℕ → WorkerList → WorkerList
forget w l = record (disable w l) { ip_to_worker = erase_ip (l.node_of w).ip l.ip_to_worker }

-- The loop of DeleteWorker: the list, and the workers that stay
unfoldable pub delete_loop : Text → List ℕ → WorkerList → WorkerList × List ℕ
unfolding update erase_ip
delete_loop host [] l = (l, [])
delete_loop host (w ∷ ws) l =
    let gone = text_eq (l.node_of w).host host in
    let (r, left) = delete_loop host ws (if gone then forget w l else l) in
    (r, (if gone then left else w ∷ left))

-- DeleteWorker
unfoldable pub delete_worker : Text → WorkerList → WorkerList
unfolding delete_loop
delete_worker host l = let (r, left) = delete_loop host l.workers l in record r { workers = left }

unfoldable pub disable_each : List ℕ → WorkerList → WorkerList
unfolding update
disable_each [] l = l
disable_each (w ∷ ws) l = disable_each ws (disable w l)

-- Clear
unfoldable pub clear : WorkerList → WorkerList
unfolding disable_each
clear l = record (disable_each l.workers l) { workers = []; ip_to_worker = [] }

-- GetWorker
unfoldable pub get_worker : Text → List ℕ → WorkerList → Option ℕ
get_worker host [] l = none
get_worker host (w ∷ ws) l =
    let rest = get_worker host ws l in if text_eq (l.node_of w).host host then some w else rest

-- SetWorkerIP: whether the worker is in the list
unfoldable pub set_worker_ip : ℕ → Text → WorkerList → WorkerList × Bool
unfolding is_in update erase_ip
set_worker_ip w ip l =
    if is_in w l.workers
    then (
      record (set_node w (record (l.node_of w) { ip = ip }) l) {
        ip_to_worker = put_ip ip w l.ip_to_worker;
      },
      true,
    )
    else (l, false)

-- GetWorkerByIP
abbrev pub get_worker_by_ip : Text → WorkerList → Option ℕ
get_worker_by_ip ip l = find_ip ip l.ip_to_worker

-- `state & stateMask`; a state is a power of two.
abbrev pub code : WorkerState → ℕ
code not_avail = 1
code ready = 2
code exec = 4
code disabled = 8

abbrev pub has_state : ℕ → WorkerState → Bool
has_state mask st = (mask / code st) % 2 == 1

-- GetWorkerList
unfoldable pub get_worker_list : ℕ → List ℕ → WorkerList → List ℕ
get_worker_list mask [] l = []
get_worker_list mask (w ∷ ws) l =
    let rest = get_worker_list mask ws l in
    if has_state mask (l.node_of w).state then w ∷ rest else rest

-- The workers that IsAvailable holds of
unfoldable pub available : List ℕ → WorkerList → List ℕ
unfolding is_available
available [] l = []
available (w ∷ ws) l =
    let rest = available ws l in if is_available (l.node_of w).state then w ∷ rest else rest

unfoldable pub sum_cpu : List ℕ → WorkerList → ℤ
sum_cpu [] l = pos 0
sum_cpu (w ∷ ws) l = (l.node_of w).num_cpu +ℤ sum_cpu ws l

-- GetTotalWorkers, GetTotalCPU, GetNumWorkers and GetNumCPU
abbrev pub get_total_workers : WorkerList → ℕ
get_total_workers l = length (available l.workers l)

abbrev pub get_total_cpu : WorkerList → ℤ
get_total_cpu l = sum_cpu (available l.workers l) l

abbrev pub get_num_workers : ℕ → WorkerList → ℕ
get_num_workers mask l = length (get_worker_list mask l.workers l)

abbrev pub get_num_cpu : ℕ → WorkerList → ℤ
get_num_cpu mask l = sum_cpu (get_worker_list mask l.workers l) l

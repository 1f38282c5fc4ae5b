-- ===== src/Master/WorkerManager/Pings.antt =====
-- The pings of WorkerManager and of Pinger (master/worker_manager.cpp, master/ping.cpp): the responses,
-- and the check for workers that have not responded.
use prun.Base.{ℕ, ◌+◌, Bool, true, false, none, some, List, [], ◌∷◌, Text, ltb, ◌==◌, if◌then◌else◌}
use prun.Base.Int.{ℤ}
use prun.Master.JobStore.{update}
use prun.Master.Scheduler.{WorkerState, not_avail, ready, exec, disabled}
use prun.Master.WorkerManager.{
  Manager, call, host_appeared, state_changed, all_workers, find_in_groups, get_worker_by_ip,
}

-- Whether a worker that has not responded becomes unavailable
abbrev pub drops : WorkerState → Bool
drops ready = true
drops exec = true
drops not_avail = false
drops disabled = false

abbrev pub is_dropped : ℕ → Manager → Bool
is_dropped w m = if m.num_ping w == 0 then drops (m.node_of w).state else false

-- The body of the loop of CheckDropedPingResponses
abbrev pub check_worker : ℕ → Manager → Manager
check_worker w m = record m {
  node_of =
      if is_dropped w m
      then update m.node_of w (record (m.node_of w) { state = not_avail })
      else m.node_of;
  num_ping = update m.num_ping w 0;
}

-- That loop: the workers whose state has changed
unfoldable pub check_each : List ℕ → Manager → Manager × List ℕ
unfolding update
check_each [] m = (m, [])
check_each (w ∷ ws) m =
    let (m', changed) = check_each ws (check_worker w m) in
    (m', (if is_dropped w m then w ∷ changed else changed))

abbrev pub tell_scheduler : List ℕ → Manager → Manager
tell_scheduler [] m = m
tell_scheduler (w ∷ ws) m = call (state_changed (w ∷ ws)) m

-- CheckDropedPingResponses
unfoldable pub check_droped_ping_responses : Manager → Manager
unfolding check_each all_workers
check_droped_ping_responses m =
    let (m', changed) = check_each (all_workers m.groups) m in tell_scheduler changed m'

abbrev pub appears : ℕ → ℤ → ℤ → Manager → Manager
appears w num_cpu memory m = call (host_appeared w) (record m {
  node_of = update m.node_of w (record (m.node_of w) { state = ready; num_cpu = num_cpu });
  memory = update m.memory w memory;
})

-- What OnNodePingResponse does to the worker that it finds, behind IncNumPingResponse
abbrev pub responded : WorkerState → ℕ → ℤ → ℤ → Manager → Manager
responded not_avail w num_cpu memory m = appears w num_cpu memory m
responded ready w num_cpu memory m = m
responded exec w num_cpu memory m = m
responded disabled w num_cpu memory m = m

-- OnNodePingResponse
unfoldable pub on_node_ping_response : Text → ℤ → ℤ → Manager → Manager
unfolding find_in_groups update
on_node_ping_response ip num_cpu memory m = elim (get_worker_by_ip ip m) [
  | none ↦ m
  | some w ↦
      responded (m.node_of w).state w num_cpu memory
        (record m { num_ping = update m.num_ping w (m.num_ping w + 1) })
]

-- Pinger of master/ping.h: the pings since the last check
pub record Pinger : Type 0 where
  pub num_pings : ℕ
  pub max_droped : ℕ

-- One round of Pinger::Run: PingWorkers sends its packets and counts, then comes the check.
unfoldable pub ping_round : Pinger → Manager → Pinger × Manager
unfolding check_droped_ping_responses
ping_round p m =
    if ltb (p.num_pings + 1) (p.max_droped + 1)
    then (record p { num_pings = p.num_pings + 1 }, m)
    else (record p { num_pings = 0 }, check_droped_ping_responses m)

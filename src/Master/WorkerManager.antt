-- ===== src/Master/WorkerManager.antt =====
-- WorkerManager of master/worker_manager.h and master/worker_manager.cpp, over WorkerList. The worker
-- objects are shared: the manager's state has their fields once, by their numbers.
pub mod Pings
pub mod Pinging
pub mod Responding
pub mod Counting
pub mod Thinning
pub mod Grouping
pub mod Hosts
pub mod Reaching
mod Checks
use prun.Base.{
  ℕ, suc, zero, ◌+◌, Bool, true, false, not, ◌&&◌, ◌||◌, Option, none, some, List, [], ◌∷◌, ◌++◌,
  Text, text_eq, ltb, ◌==◌, if◌then◌else◌,
}
use prun.Base.Int.{ℤ, pos, ◌+ℤ◌, ltb_ℤ, pos_part}
use prun.Containers.TextSet
use prun.Containers.TextSet.{TextSet}
use prun.Containers.TextMap
use prun.Containers.TextMap.{TextMap}
use prun.Master.JobStore.{update}
use prun.Master.WorkerJob.{WorkerTask}
use prun.Master.Scheduler.{WorkerState, not_avail, ready, exec, disabled}
use prun.Master.WorkerList
use prun.Master.WorkerList.{Node, WorkerList}

-- A WorkerList without the fields of its workers
pub record Members : Type 0 where
  pub workers : List ℕ
  pub ip_to_worker : List (Text × ℕ)

abbrev pub no_members : Members
no_members = record { workers = []; ip_to_worker = [] }

-- IScheduler::OnHostAppearance and OnChangedWorkerState, and NotifyAll with its event
pub data Call : Type 0 where
  host_appeared : ℕ → Call
  state_changed : List ℕ → Call
  task_completion command_added : Call

-- Workers are numbered in the order in which they are made; `made` is the next number. Commands are
-- named by numbers.
pub record Manager : Type 0 where
  pub node_of : ℕ → Node
  pub num_ping : ℕ → ℕ
  pub memory : ℕ → ℤ
  pub made : ℕ
  pub groups : TextMap Members
  pub hosts : TextSet
  pub achieved : List (WorkerTask × Text)
  pub commands : List (ℕ × Text)
  pub calls : List Call

abbrev pub call : Call → Manager → Manager
call c m = record m { calls = m.calls ++ c ∷ [] }

abbrev pub list_of : Members → Manager → WorkerList
list_of g m = record { node_of = m.node_of; workers = g.workers; ip_to_worker = g.ip_to_worker }

abbrev pub members_of : WorkerList → Members
members_of l = record { workers = l.workers; ip_to_worker = l.ip_to_worker }

-- new Worker( host, group )
abbrev pub new_node : Text → Node
new_node host = record { host = host; ip = []; state = not_avail; num_cpu = pos 0 }

abbrev pub new_worker : Text → Manager → Manager
new_worker host m = record m {
  node_of = update m.node_of m.made (new_node host);
  num_ping = update m.num_ping m.made 0;
  made = m.made + 1;
}

-- workerList.AddWorker( worker )
abbrev pub add_member : ℕ → Members → Members
add_member w g = record g { workers = g.workers ++ w ∷ [] }

-- AddWorkerHost
unfoldable pub add_worker_host : Text → Text → Manager → Manager
unfolding TextSet.contains TextSet.insert TextMap.change update
add_worker_host group host m =
    if TextSet.contains host m.hosts then m else record (new_worker host m) {
      hosts = (TextSet.insert host m.hosts).0;
      groups = TextMap.change group no_members (add_member m.made) m.groups;
    }

-- AddWorkerGroup
unfoldable pub add_worker_group : Text → List Text → Manager → Manager
unfolding add_worker_host
add_worker_group group [] m = m
add_worker_group group (h ∷ hs) m = add_worker_group group hs (add_worker_host group h m)

-- The loop of DeleteWorkerGroup over the workers of the group
unfoldable pub erase_hosts : List ℕ → (ℕ → Node) → TextSet → TextSet
unfolding TextSet.erase
erase_hosts [] node_of s = s
erase_hosts (w ∷ ws) node_of s = erase_hosts ws node_of (TextSet.erase (node_of w).host s)

-- DeleteWorkerGroup
unfoldable pub delete_worker_group : Text → Manager → Manager
unfolding TextMap.find TextMap.erase erase_hosts WorkerList.clear
delete_worker_group group m = elim (TextMap.find group m.groups) [
  | none ↦ m
  | some g ↦ record m {
    node_of = (WorkerList.clear (list_of g m)).node_of;
    hosts = erase_hosts g.workers m.node_of m.hosts;
    groups = TextMap.erase group m.groups;
  }
]

-- A loop over the groups that changes their lists and their workers
unfoldable pub each_group :
    (WorkerList → WorkerList) → TextMap Members → (ℕ → Node) → (ℕ → Node) × TextMap Members
each_group f [] node_of = (node_of, [])
each_group f ((n, g) ∷ gs) node_of =
    let l = f (record { node_of = node_of; workers = g.workers; ip_to_worker = g.ip_to_worker }) in
    let (node_of', gs') = each_group f gs l.node_of in (node_of', (n, members_of l) ∷ gs')

abbrev pub on_groups : (WorkerList → WorkerList) → Manager → Manager
on_groups f m =
    let (node_of, groups) = each_group f m.groups m.node_of in
    record m { node_of = node_of; groups = groups }

-- DeleteWorkerHost
unfoldable pub delete_worker_host : Text → Manager → Manager
unfolding each_group WorkerList.delete_worker TextSet.erase
delete_worker_host host m = record (on_groups (WorkerList.delete_worker host) m) {
  hosts = TextSet.erase host m.hosts;
}

-- SetWorkerIP
unfoldable pub set_worker_ip : ℕ → Text → Manager → Manager
unfolding each_group WorkerList.set_worker_ip
set_worker_ip w ip m = on_groups (λ l. (WorkerList.set_worker_ip w ip l).0) m

-- Shutdown
unfoldable pub shutdown : Manager → Manager
unfolding each_group WorkerList.clear
shutdown m = on_groups WorkerList.clear m

-- GetWorkerByIP
unfoldable pub find_in_groups : Text → TextMap Members → Option ℕ
unfolding WorkerList.find_ip
find_in_groups ip [] = none
find_in_groups ip ((n, g) ∷ gs) = elim (WorkerList.find_ip ip g.ip_to_worker) [
  | none ↦ find_in_groups ip gs
  | some w ↦ some w
]

abbrev pub get_worker_by_ip : Text → Manager → Option ℕ
get_worker_by_ip ip m = find_in_groups ip m.groups

-- GetWorkers of all groups
unfoldable pub all_workers : TextMap Members → List ℕ
all_workers [] = []
all_workers ((n, g) ∷ gs) = g.workers ++ all_workers gs

-- GetWorkers of one group
unfoldable pub get_workers : Text → Manager → List ℕ
unfolding TextMap.find
get_workers group m = elim (TextMap.find group m.groups) [ none ↦ [] | some g ↦ g.workers ]

-- GetTotalWorkers and GetTotalCPU
unfoldable pub total_workers : TextMap Members → Manager → ℕ
unfolding WorkerList.available
total_workers [] m = 0
total_workers ((n, g) ∷ gs) m = WorkerList.get_total_workers (list_of g m) + total_workers gs m

unfoldable pub total_cpu : TextMap Members → Manager → ℤ
unfolding WorkerList.available WorkerList.sum_cpu
total_cpu [] m = pos 0
total_cpu ((n, g) ∷ gs) m = WorkerList.get_total_cpu (list_of g m) +ℤ total_cpu gs m

-- OnNodeTaskCompletion
unfoldable pub on_node_task_completion : Text → ℤ → ℤ → Manager → Manager
on_node_task_completion ip job task m =
    if ltb_ℤ job (pos 0) || ltb_ℤ task (pos 0)
    then m
    else call task_completion (record m {
      achieved = m.achieved ++ (record { job_id = pos_part job; task_id = pos_part task }, ip) ∷ [];
    })

-- GetAchievedTask
unfoldable pub get_achieved_task : Manager → Option ((WorkerTask × Text) × Manager)
get_achieved_task m = elim m.achieved [ [] ↦ none | t ∷ ts ↦ some (t, record m { achieved = ts }) ]

-- AddCommand
unfoldable pub add_command : ℕ → Text → Manager → Manager
add_command c ip m = call command_added (record m { commands = m.commands ++ (c, ip) ∷ [] })

-- GetCommand
unfoldable pub get_command : Manager → Option ((ℕ × Text) × Manager)
get_command m = elim m.commands [ [] ↦ none | c ∷ cs ↦ some (c, record m { commands = cs }) ]

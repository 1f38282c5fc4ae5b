-- ===== src/Master/WorkerManager/Checks.antt =====
-- Tests of the model of WorkerManager, and its theorems at concrete workers.
use prun.Base.{◌≡◌, refl, true, not, ◌&&◌, none, some, [], ◌∷◌, Text, codes, ltb, arith}
use prun.Base.Int.{pos, negsuc}
use prun.Containers.TextSet
use prun.Master.JobStore.{is_in}
use prun.Master.Scheduler.{is_available}
use prun.Master.WorkerManager.{
  Manager, new_node, host_appeared, state_changed, add_worker_host, add_worker_group,
  delete_worker_group, delete_worker_host, set_worker_ip, all_workers, get_workers, total_workers,
  find_in_groups, on_node_task_completion, get_achieved_task, add_command, get_command, shutdown,
}
use prun.Master.WorkerManager.Pings.{check_droped_ping_responses, on_node_ping_response, ping_round}
use prun.Master.WorkerManager.Pinging.{Distinct, state, is_told, check_droped_ping_responses-checks}
use prun.Master.WorkerManager.Responding.{on_node_ping_response-stays}
use prun.Master.WorkerManager.Grouping.{one_if}
use prun.Master.WorkerManager.Hosts.{on_host}
use prun.Master.WorkerManager.Reaching.{here, next, add_host, delete_host, Reach-registers}

abbrev nothing : Manager
nothing = record {
  node_of = λ w. new_node [];
  num_ping = λ w. 0;
  memory = λ w. pos 0;
  made = 0;
  groups = [];
  hosts = [];
  achieved = [];
  commands = [];
  calls = [];
}

abbrev east : Text
east = codes "east"

abbrev west : Text
west = codes "west"

abbrev home : Text
home = codes "127.0.0.1"

-- Two hosts in two groups; the first has an IP.
abbrev two : Manager
two = set_worker_ip 0 home (
    add_worker_host (codes "b") west
      (add_worker_host (codes "a") east (add_worker_host (codes "a") east nothing)))

grouped :
    (get_workers (codes "a") two ≡ 0 ∷ []) × (get_workers (codes "b") two ≡ 1 ∷ []) × (two.made ≡ 2)
unfolding set_worker_ip add_worker_host get_workers
grouped = (refl, refl, refl)

group_added : (add_worker_group (codes "c") (east ∷ west ∷ east ∷ []) nothing).made ≡ 2
unfolding add_worker_group
group_added = refl

group_deleted : all_workers (delete_worker_group (codes "a") two).groups ≡ 1 ∷ []
unfolding set_worker_ip add_worker_host delete_worker_group all_workers
group_deleted = refl

shut : all_workers (shutdown two).groups ≡ []
unfolding set_worker_ip add_worker_host shutdown all_workers
shut = refl

-- The first worker responds, and is checked twice.
abbrev answered : Manager
answered = on_node_ping_response home (pos 4) (pos 1024) two

seen : (answered.calls ≡ host_appeared 0 ∷ []) × (total_workers answered.groups answered ≡ 1)
unfolding set_worker_ip add_worker_host on_node_ping_response total_workers is_available
seen = (refl, refl)

lost :
    (check_droped_ping_responses (check_droped_ping_responses answered)).calls
    ≡ host_appeared 0 ∷ state_changed (0 ∷ []) ∷ []
unfolding set_worker_ip add_worker_host on_node_ping_response check_droped_ping_responses
lost = refl

second_round : (ping_round (record { num_pings = 0; max_droped = 1 }) answered).0.num_pings ≡ 1
unfolding ping_round
second_round = refl

ignored : get_achieved_task (on_node_task_completion home (negsuc 0) (pos 1) nothing) ≡ none
unfolding on_node_task_completion get_achieved_task
ignored = refl

first_command :
    get_command (add_command 7 home nothing)
    ≡ some ((7, home), record (add_command 7 home nothing) { commands = [] })
unfolding add_command get_command
first_command = refl

check_droped_ping_responses-checks_example :
    let n = check_droped_ping_responses answered in
    (is_available (state 0 n) ≡ (is_available (state 0 answered) && ltb 0 (answered.num_ping 0)))
    × (n.num_ping 0 ≡ 0)
    × (is_told 0 n.calls ≡ (is_available (state 0 answered) && not (is_available (state 0 n))))
unfolding set_worker_ip add_worker_host on_node_ping_response all_workers is_in is_told
check_droped_ping_responses-checks_example =
    check_droped_ping_responses-checks 0 answered (refl, (refl, tt)) refl refl

on_node_ping_response-stays_example :
    let n = on_node_ping_response home (pos 4) (pos 1024) two in
    (is_available (state 0 n) ≡ true)
    × (is_available (state 0 (check_droped_ping_responses n)) ≡ true)
unfolding set_worker_ip add_worker_host all_workers is_in find_in_groups
on_node_ping_response-stays_example =
    on_node_ping_response-stays home (pos 4) (pos 1024) 0 two (refl, (refl, tt)) refl refl
      (ground arith)

Reach-registers_example :
    let n = delete_worker_host east (add_worker_host (codes "a") east nothing) in
    ((h : Text) → on_host h n ≡ one_if (TextSet.contains h n.hosts))
    × Distinct (all_workers n.groups)
Reach-registers_example =
    Reach-registers nothing (delete_worker_host east (add_worker_host (codes "a") east nothing))
      refl refl (next (next here (add_host (codes "a") east)) (delete_host east))

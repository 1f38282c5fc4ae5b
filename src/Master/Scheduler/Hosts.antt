-- ===== src/Master/Scheduler/Hosts.antt =====
-- How the scheduler follows the workers: OnHostAppearance, DeleteWorker and OnChangedWorkerState of
-- master/scheduler.cpp.
use prun.Base.{Bool, true, false, not, ◌&&◌, List, [], ◌∷◌, Text, text_eq, if◌then◌else◌}
use prun.Base.Int.{pos, ltb_ℤ}
use prun.Containers.TextSet
use prun.Master.WorkerJob.{new_job}
use prun.Master.FailedWorkers.{add_jobs}
use prun.Master.Scheduler.{
  WorkerState, not_avail, ready, exec, disabled, Scheduler, notify, notify_all, stop_previous,
  job_at, set_job, put_at, update_node_priority,
}
use prun.Master.Scheduler.Stopping.{stop_worker, reschedule_job}

-- OnHostAppearance: a node that is there keeps its busy CPUs and its place.
unfoldable pub on_host_appearance : Text → Scheduler → Scheduler
unfolding update_node_priority
on_host_appearance ip s =
    let s' = record s {
      nodes = (TextSet.insert ip s.nodes).0;
      busy = (if TextSet.contains ip s.nodes then s.busy else put_at ip (pos 0) s.busy);
    } in
    let placed = if TextSet.contains ip s.priority then s' else update_node_priority ip s' in
    notify notify_all (notify (stop_previous ip) placed)

-- The body of the loop of DeleteWorker, for a node of the host
unfoldable pub delete_node : Text → Scheduler → Scheduler
unfolding stop_worker add_jobs reschedule_job
delete_node ip s =
    let w = job_at ip s in
    let s' = stop_worker ip s in
    (reschedule_job w (record s' {
      failed = add_jobs w ip s'.failed;
      priority = TextSet.erase ip s'.priority;
      nodes = TextSet.erase ip s'.nodes;
    })).0

unfoldable pub delete_nodes : Text → List Text → Scheduler → Scheduler
unfolding delete_node
delete_nodes host [] s = s
delete_nodes host (ip ∷ ips) s =
    delete_nodes host ips (if text_eq (s.worker_of ip).host host then delete_node ip s else s)

-- DeleteWorker
unfoldable pub delete_worker : Text → Scheduler → Scheduler
unfolding delete_nodes
delete_worker host s = notify notify_all (delete_nodes host s.nodes s)

-- A lost worker: its tasks are planned again.
unfoldable pub lose_worker : Text → Scheduler → Scheduler
unfolding add_jobs update_node_priority reschedule_job
lose_worker ip s =
    let w = job_at ip s in
    let s' = update_node_priority ip (
      set_job ip new_job
        (record s { failed = add_jobs w ip s.failed; busy = put_at ip (pos 0) s.busy })) in
    let (r, found) = reschedule_job w s' in if found then notify notify_all r else r

abbrev pub is_not_avail : WorkerState → Bool
is_not_avail not_avail = true
is_not_avail ready = false
is_not_avail exec = false
is_not_avail disabled = false

-- The body of the loop of OnChangedWorkerState
unfoldable pub on_changed_worker : Text → Scheduler → Scheduler
unfolding lose_worker
on_changed_worker ip s =
    let lost = lose_worker ip s in
    if is_not_avail (s.worker_of ip).state
      && TextSet.contains ip s.nodes
      && not (ltb_ℤ (s.busy ip) (pos 1))
    then lost
    else s

-- OnChangedWorkerState
unfoldable pub on_changed_worker_state : List Text → Scheduler → Scheduler
unfolding on_changed_worker
on_changed_worker_state [] s = s
on_changed_worker_state (ip ∷ ips) s = on_changed_worker_state ips (on_changed_worker ip s)

-- ===== src/Master/Timeouts/Checks.antt =====
-- Tests of the model of the TimeoutManager, and its theorems at concrete callbacks.
use prun.Base.{◌≡◌, refl, false, [], ◌∷◌, codes, arith, none, Text}
use prun.Base.Int.{pos, negsuc}
use prun.Master.Permissions.{no_limits}
use prun.Master.JobStore.{is_in}
use prun.Master.Scheduler.{ready, Scheduler}
use prun.Master.Timeouts.{
  TimeToCallback, task_timeout, job_timeout, job_queue_timeout, push, push_job, push_job_queue,
  push_task, check_timeouts, run_timeouts,
}
use prun.Master.Timeouts.Deadlines.{Ascending, due, later, check_timeouts-due}
use prun.Master.Timeouts.Stopped.{run_timeouts-stops}

abbrev here : Text
here = codes "10.0.0.1"

abbrev entries : TimeToCallback
entries =
    (10, task_timeout (record { job_id = 3; task_id = 0 }) here)
    ∷ (10, job_timeout 3)
    ∷ (40, job_queue_timeout 4)
    ∷ []

-- The entries that the operations make, at time 0 with one tick a second
pushed :
    push_job_queue 1 0 4 (pos 40) (
      push_job 1 0 3 (pos 10) (
        push_task 1 0
          (record { job_id = 3; task_id = 0 })
          here
          (pos 10)
          (push_job 1 0 5 (negsuc 0) [])))
    ≡ entries
unfolding push
pushed = refl

entries-Ascending : Ascending entries
entries-Ascending = ground arith

check_timeouts-due_example : check_timeouts 20 entries ≡ (due 20 entries, later 20 entries)
check_timeouts-due_example = check_timeouts-due 20 entries entries-Ascending

abbrev state : Scheduler
state = record {
  queue = record {
    job_of = λ j. record {
      priority = pos 0;
      group_id = pos 0;
      num_depends = pos 0;
      name = [];
      job_group = none;
      vertex = 0;
    };
    group_of = λ k. record { edges = []; index_to_job = []; num_completed = 0; name = [] };
    jobs = [];
    delayed = [];
    id_to_job = [];
    names = [];
    held = [];
    events = [];
  };
  spec_of = λ j. record {
    num_exec = pos 1;
    per_host = false;
    max_failed_nodes = pos 10;
    max_cluster_instances = pos 0;
    max_worker_instances = pos 0;
    max_exec_at_worker = pos 0;
    exclusive = false;
    no_reschedule = false;
    has_cron = false;
    permissions = no_limits;
  };
  planned_exec = λ j. pos 1;
  group_cron = λ k. false;
  worker_of = λ ip. record {
    host = codes "one";
    group = [];
    state = ready;
    num_cpu = pos 4;
    job = record { jobs = (3, 0 ∷ []) ∷ []; exclusive = false };
  };
  by_ip = here ∷ [];
  total_cpu = pos 4;
  total_workers = pos 1;
  nodes = here ∷ [];
  busy = λ ip. pos 1;
  priority = here ∷ [];
  places = λ n. 0;
  turn = 0;
  failed = record { failed = [] };
  jobs = record { order = 3 ∷ []; sent = 3 ∷ []; executions = (3, pos 1) ∷ []; names = [] };
  tasks_to_send = [];
  need_reschedule = [];
  simult_exec_cnt = (3, pos 1) ∷ [];
  history = λ k ip. 0;
  notices = [];
}

run_timeouts-stops_example : is_in 3 (run_timeouts 20 entries state).1.jobs.order ≡ false
run_timeouts-stops_example =
    run_timeouts-stops 20 10 3 ((10, task_timeout (record { job_id = 3; task_id = 0 }) here) ∷ [])
      ((40, job_queue_timeout 4) ∷ []) state (omega arith) entries-Ascending

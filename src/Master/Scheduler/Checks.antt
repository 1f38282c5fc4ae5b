-- ===== src/Master/Scheduler/Checks.antt =====
-- Tests of the model of the scheduler, and its theorems at a concrete state.
use prun.Base.{
  ℕ, ◌≤◌, ◌≡◌, refl, ap, Bool, true, false, not, ◌&&◌, none, some, [], ◌∷◌, Text, text_eq, codes,
  ◌==◌, if◌then◌else◌, arith, Bool-cases, inl, inr,
}
use prun.Base.Int.{pos, ◌-ℤ◌}
use prun.Containers.IntSet
use prun.Containers.IntMap
use prun.Containers.TextSet
use prun.Master.WorkerJob.{
  WorkerTask, WorkerJob, new_job, has_task, get_job_id, get_total_num_tasks,
}
use prun.Master.WorkerJob.Tasks.{IsValid}
use prun.Master.FailedWorkers.{add, is_worker_failed_job, workers_of, get_failed_nodes_cnt}
use prun.Master.Permissions.{no_limits, is_host_permitted, is_group_permitted}
use prun.Master.JobStore.{Queue, is_in}
use prun.Master.Scheduler.{ready, Worker, JobSpec, Scheduler, job_at}
use prun.Master.Scheduler.Planning.{Plan, get_job_for_worker}
use prun.Master.Scheduler.Sending.{get_task_to_send}
use prun.Master.Scheduler.Stopping.{stop_job, reaches_failed}
use prun.Master.Scheduler.Completion.{fail_at, knows, on_error, on_failed_sending}
use prun.Master.Scheduler.Bounds.{IsBounded, get_task_to_send-IsBounded}
use prun.Master.Scheduler.Counting.{IsSingle, times_waiting, times_known, get_job_for_worker-times}
use prun.Master.Scheduler.Listing.{is_waiting, set_at, set_at_tasks}
use prun.Master.JobQueue.Dependencies.{count}
use prun.Master.Scheduler.Refining.{get_task_to_send-Step}
use prun.Master.Scheduler.Machine.{Step, view}
use prun.Master.Scheduler.Forgetting.{AllValid, stop_job-forgets}
use prun.Master.Scheduler.Accounting.{IsAccounted, ShortBy}
use prun.Master.Scheduler.Failing.{on_error-frees, on_error-ShortBy}
use prun.Master.Scheduler.Choices.{get_job_for_worker-SameHistory, on_failed_sending-deletes_first}

abbrev empty_queue : Queue
empty_queue = record {
  job_of = λ j. record {
    priority = pos 0;
    group_id = pos 0;
    num_depends = pos 0;
    name = [];
    job_group = none;
    vertex = 0;
  };
  group_of = λ k. record { edges = []; index_to_job = []; num_completed = 0; name = [] };
  jobs = [];
  delayed = [];
  id_to_job = [];
  names = [];
  held = [];
  events = [];
}

-- Job 3 may fail at one worker only.
abbrev spec_of : ℕ → JobSpec
spec_of j = record {
  num_exec = pos 3;
  per_host = false;
  max_failed_nodes = (if j == 3 then pos 1 else pos 10);
  max_cluster_instances = pos 0;
  max_worker_instances = pos 0;
  max_exec_at_worker = pos 0;
  exclusive = false;
  no_reschedule = false;
  has_cron = false;
  permissions = no_limits;
}

abbrev here : Text
here = codes "10.0.0.1"

abbrev three_tasks : WorkerJob
three_tasks = record { jobs = (3, 1 ∷ 2 ∷ []) ∷ (5, 7 ∷ []) ∷ []; exclusive = false }

abbrev worker_with : WorkerJob → Worker
worker_with w = record { host = codes "one"; group = []; state = ready; num_cpu = pos 4; job = w }

-- One node with three of its four CPUs busy; two tasks of job 3 wait.
abbrev state : Scheduler
state = record {
  queue = empty_queue;
  spec_of = spec_of;
  planned_exec = λ j. pos 3;
  group_cron = λ k. false;
  worker_of = λ ip. if text_eq here ip then worker_with three_tasks else worker_with new_job;
  by_ip = here ∷ [];
  total_cpu = pos 4;
  total_workers = pos 1;
  nodes = here ∷ [];
  busy = λ ip. if text_eq here ip then pos 3 else pos 0;
  priority = here ∷ [];
  places = λ n. 0;
  turn = 0;
  failed = record { failed = [] };
  jobs = record {
    order = 3 ∷ 5 ∷ [];
    sent = 5 ∷ [];
    executions = (3, pos 4) ∷ (5, pos 1) ∷ [];
    names = [];
  };
  tasks_to_send = (3, 3 ∷ 4 ∷ []) ∷ [];
  need_reschedule = [];
  simult_exec_cnt = (3, pos 2) ∷ (5, pos 1) ∷ [];
  history = λ k ip. 0;
  notices = [];
}

abbrev start : Plan
start = record { planned = new_job; found = none; job = none; scheduler = state }

-- The worker with a free CPU gets the first task that waits.
gets_first : (get_task_to_send new_job none state).0.planned.jobs ≡ (3, 3 ∷ []) ∷ []
unfolding get_task_to_send ◌-ℤ◌ IntSet.contains is_worker_failed_job IntMap.find is_host_permitted
    TextSet.contains is_group_permitted IntMap.put IntSet.insert
gets_first = refl

three_tasks-IsValid : IsValid three_tasks
three_tasks-IsValid = record { keys = ground arith; sets = ground arith }

new_job-IsValid : IsValid new_job
new_job-IsValid = record { keys = tt; sets = tt }

state-AllValid : AllValid state
unfolding AllValid
state-AllValid ip = elim (Bool-cases (text_eq here ip)) [
  | inl e ↦ rw e three_tasks-IsValid
  | inr e ↦ rw e new_job-IsValid
]

state-IsBounded : IsBounded state
unfolding IsBounded get_total_num_tasks
state-IsBounded ip = elim (Bool-cases (text_eq here ip)) [
  | inl e ↦ rw e (three_tasks-IsValid, omega arith, omega arith)
  | inr e ↦ rw e (new_job-IsValid, omega arith, omega arith)
]

at_most_once : (b : Bool) (u : ℕ) → count u (set_at (if b then some (3 ∷ 4 ∷ []) else none)) ≤ 1
at_most_once true u = ground arith
at_most_once false u = omega arith

state-IsSingle : IsSingle state
unfolding times_waiting IntMap.find
state-IsSingle i u =
    let e = ap (count u) (set_at_tasks i state) in
    let m : count u (set_at (IntMap.find i state.tasks_to_send)) ≤ 1 = at_most_once (3 == i) u in
    omega (arith, e, m)

state-IsAccounted : IsAccounted state
unfolding IsAccounted get_total_num_tasks
state-IsAccounted ip m = elim (Bool-cases (text_eq here ip)) [
  | inl e ↦ rw e refl
  | inr e ↦ rw e refl
]

keys_in_order : IntMap.Ascending state.tasks_to_send
keys_in_order = (tt, tt)

get_task_to_send-IsBounded_example : IsBounded (get_task_to_send new_job none state).0.scheduler
get_task_to_send-IsBounded_example =
    get_task_to_send-IsBounded new_job none state refl state-IsBounded

get_task_to_send-Step_example :
    Step (view state) (view (get_task_to_send new_job none state).0.scheduler)
get_task_to_send-Step_example =
    get_task_to_send-Step new_job none state refl keys_in_order state-IsSingle

known_once : times_known 3 3 start ≤ 1
unfolding times_known times_waiting has_task IntMap.find
known_once = omega arith

get_job_for_worker-times_example :
    times_known 3 3 (get_job_for_worker here 1 start) ≡ times_known 3 3 start
get_job_for_worker-times_example =
    get_job_for_worker-times here 1 3 3 start keys_in_order known_once

is_scheduled : is_in 3 state.jobs.order ≡ true
unfolding is_in
is_scheduled = refl

stop_job-forgets_example :
    (is_in 3 (stop_job 3 state).jobs.order ≡ false)
    × ((i u : ℕ) → is_waiting i u (stop_job 3 state) ≡ (not (3 == i) && is_waiting i u state))
    × ((ip : Text) (i u : ℕ)
        → has_task i u (job_at ip (stop_job 3 state))
          ≡ (not (TextSet.contains ip state.nodes && 3 == i) && has_task i u (job_at ip state)))
stop_job-forgets_example = stop_job-forgets 3 state is_scheduled state-AllValid keys_in_order

abbrev first_task : WorkerTask
first_task = record { job_id = 3; task_id = 1 }

abbrev last_task : WorkerTask
last_task = record { job_id = 5; task_id = 7 }

at_worker : IsValid (job_at here state)
at_worker = three_tasks-IsValid

is_running : has_task 5 7 (job_at here state) ≡ true
unfolding has_task IntMap.find IntSet.contains
is_running = refl

fails_few : reaches_failed 5 (fail_at 5 here state) ≡ false
unfolding reaches_failed add workers_of IntMap.find IntMap.put TextSet.insert get_failed_nodes_cnt
fails_few = refl

fails_too_many : reaches_failed 3 (fail_at 3 here state) ≡ true
unfolding reaches_failed add workers_of IntMap.find IntMap.put TextSet.insert get_failed_nodes_cnt
fails_too_many = refl

is_known : knows 3 here state ≡ true
unfolding is_in TextSet.contains
is_known = refl

is_new : (add 3 here state.failed).1 ≡ true
unfolding add workers_of IntMap.find TextSet.insert
is_new = refl

knows_last : knows 5 here state ≡ true
unfolding is_in TextSet.contains
knows_last = refl

is_first : (add 5 here state.failed).1 ≡ true
unfolding add workers_of IntMap.find TextSet.insert
is_first = refl

on_error-frees_example :
    ((q : Text)
      → (on_error last_task here state).busy q
        ≡ (if text_eq here q then pos 3 -ℤ pos 1 else state.busy q))
    × ((q : Text) (j u : ℕ)
        → has_task j u (job_at q (on_error last_task here state))
          ≡ (not (text_eq here q && 5 == j && 7 == u) && has_task j u (job_at q state)))
on_error-frees_example = on_error-frees last_task here state at_worker knows_last is_first fails_few

on_error-ShortBy_example : ShortBy 1 here (on_error first_task here state)
on_error-ShortBy_example =
    on_error-ShortBy first_task here state is_known is_new fails_too_many state-AllValid
      state-IsAccounted

get_job_for_worker-SameHistory_example :
    (get_job_for_worker here 1 start).scheduler.history (some 3) here ≡ 0
get_job_for_worker-SameHistory_example =
    get_job_for_worker-SameHistory here 1 start refl refl 3 here

abbrev sent : WorkerJob
sent = record { jobs = (5, 7 ∷ []) ∷ []; exclusive = false }

first_is_3 : get_job_id (job_at here state) ≡ some 3
unfolding get_job_id
first_is_3 = refl

-- Task 7 of job 5 could not be sent, and the worker loses the tasks of job 3.
on_failed_sending-deletes_first_example :
    has_task 3 1 (job_at here (on_failed_sending 5 sent here state)) ≡ false
on_failed_sending-deletes_first_example =
    on_failed_sending-deletes_first 3 5 (7 ∷ []) sent here state refl at_worker first_is_3
      knows_last is_first fails_few 3 1

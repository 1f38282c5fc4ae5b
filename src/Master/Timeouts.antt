-- ===== src/Master/Timeouts.antt =====
-- TimeoutManager of master/timeout_manager.h and master/timeout_manager.cpp. The system clock is an
-- argument: `now` in ticks, of which a second has `second`. Commands are named by numbers.
pub mod Deadlines
pub mod Stopped
mod Checks
use prun.Base.{ℕ, ◌+◌, ◌*◌, Bool, true, false, List, [], ◌∷◌, Text, ltb, if◌then◌else◌}
use prun.Base.Int.{ℤ, pos, ltb_ℤ, pos_part}
use prun.Master.WorkerJob.{WorkerTask}
use prun.Master.JobQueue.{delete_job}
use prun.Master.Scheduler.{Scheduler, add_command, notify}
use prun.Master.Scheduler.Stopping.{stop_job}
use prun.Master.Scheduler.Completion.{on_task_timeout}

-- The handlers
pub data Callback : Type 0 where
  task_timeout : WorkerTask → Text → Callback
  job_timeout job_queue_timeout : ℕ → Callback
  stop_task_timeout : ℕ → Text → Callback

-- std::multimap< ptime, Callback >
abbrev pub TimeToCallback : Type 0
TimeToCallback = List (ℕ × Callback)

-- emplace: behind the callbacks of the same time
unfoldable pub emplace {ℓ} : {A : Type ℓ} → ℕ → A → List (ℕ × A) → List (ℕ × A)
emplace t c [] = (t, c) ∷ []
emplace t c ((u, d) ∷ l) =
    let rest = emplace t c l in if ltb t u then (t, c) ∷ (u, d) ∷ l else (u, d) ∷ rest

-- What PushJobQueue, PushJob, PushTask and PushCommand have in common
unfoldable pub push : ℕ → ℕ → ℤ → Callback → TimeToCallback → TimeToCallback
unfolding emplace
push second now timeout c l =
    let pushed = emplace (now + pos_part timeout * second) c l in
    if ltb_ℤ timeout (pos 0) then l else pushed

abbrev pub push_job_queue : ℕ → ℕ → ℕ → ℤ → TimeToCallback → TimeToCallback
push_job_queue second now j timeout l = push second now timeout (job_queue_timeout j) l

abbrev pub push_job : ℕ → ℕ → ℕ → ℤ → TimeToCallback → TimeToCallback
push_job second now j timeout l = push second now timeout (job_timeout j) l

abbrev pub push_task : ℕ → ℕ → WorkerTask → Text → ℤ → TimeToCallback → TimeToCallback
push_task second now t ip timeout l = push second now timeout (task_timeout t ip) l

abbrev pub push_command : ℕ → ℕ → ℕ → Text → ℤ → TimeToCallback → TimeToCallback
push_command second now c ip delay l = push second now delay (stop_task_timeout c ip) l

-- The loop of CheckTimeouts: the callbacks that are called, in order, and those that stay
unfoldable pub check_timeouts : ℕ → TimeToCallback → List Callback × TimeToCallback
check_timeouts now [] = ([], [])
check_timeouts now ((t, c) ∷ l) =
    let (called, left) = check_timeouts now l in
    if ltb now t then ([], (t, c) ∷ l) else (c ∷ called, left)

-- HandleTimeout of the four handlers; JobManager::DeleteJob deletes the job from the queue.
unfoldable pub handle_timeout : Callback → Scheduler → Scheduler
unfolding on_task_timeout stop_job delete_job
handle_timeout (task_timeout t ip) s = on_task_timeout t ip s
handle_timeout (job_timeout j) s = stop_job j s
handle_timeout (job_queue_timeout j) s = record s { queue = (delete_job j s.queue).0 }
handle_timeout (stop_task_timeout c ip) s = notify (add_command c ip) s

unfoldable pub handle_each : List Callback → Scheduler → Scheduler
unfolding handle_timeout
handle_each [] s = s
handle_each (c ∷ cs) s = handle_each cs (handle_timeout c s)

-- CheckTimeouts, with what the callbacks do to the scheduler
unfoldable pub run_timeouts : ℕ → TimeToCallback → Scheduler → TimeToCallback × Scheduler
unfolding check_timeouts handle_each
run_timeouts now l s = let (called, left) = check_timeouts now l in (left, handle_each called s)

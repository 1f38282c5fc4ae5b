-- ===== src/Master/JobManager/Watching.antt =====
-- The queue timeouts that JobManager registers (master/job_manager.cpp).
use prun.Base.{
  ℕ, ◌+◌, ◌*◌, ◌≡◌, refl, ap, ◌∙◌, Bool, true, false, not, ◌&&◌, ◌||◌, [], ◌∷◌, any, leb, ◌==◌,
  if◌then◌else◌, arith,
}
use prun.Base.Int.{ℤ, pos, ltb_ℤ, pos_part}
use prun.Master.JobQueue
use prun.Master.Timeouts.{
  Callback, TimeToCallback, task_timeout, job_timeout, job_queue_timeout, stop_task_timeout,
  emplace, push, push_job_queue,
}
use prun.Master.JobManager.Descriptions.{NewJob}
use prun.Master.JobManager.{Manager, register_job_name, set_job_id, to_queue, push_job}
use prun.Master.JobManager.Building.{restore_job}
use prun.Master.JobManager.Ids.{settle_each-Same, register-Same}

-- Whether a callback deletes this job from the queue
abbrev watches : ℕ → Callback → Bool
watches i (job_queue_timeout j) = j == i
watches i (task_timeout t ip) = false
watches i (job_timeout j) = false
watches i (stop_task_timeout c ip) = false

-- Whether the queue timeout of this job is registered
abbrev pub is_watched : ℕ → TimeToCallback → Bool
is_watched i l = any (λ (e : ℕ × Callback). watches i e.1) l

emplace-watched :
    (i t : ℕ) (c : Callback) (l : TimeToCallback)
    → is_watched i (emplace t c l) ≡ (watches i c || is_watched i l)
unfolding emplace
emplace-watched i t c [] = refl
emplace-watched i t c ((u, d) ∷ l) = ground (arith, emplace-watched i t c l)

push-watched :
    (i second now j : ℕ) (timeout : ℤ) (l : TimeToCallback)
    → is_watched i (push_job_queue second now j timeout l)
      ≡ ((not (ltb_ℤ timeout (pos 0)) && j == i) || is_watched i l)
unfolding push
push-watched i second now j timeout l =
    ground (arith, emplace-watched i (now + pos_part timeout * second) (job_queue_timeout j) l)

-- A job that comes by PushJob, with a queue timeout that is not negative, is watched.
push_job-watched :
    (second now : ℕ) (j : NewJob) (m : Manager)
    → ltb_ℤ j.queue_timeout (pos 0) ≡ false
    → is_watched m.job_id (push_job second now j m).callbacks ≡ true
unfolding push_job
push_job-watched second now j m h =
    push-watched m.job_id second now m.job_id j.queue_timeout _ ∙ ground arith

to_queue-callbacks : (i : ℕ) (m : Manager) → (to_queue i m).callbacks ≡ m.callbacks
to_queue-callbacks i m =
    let q = JobQueue.push_job i (pos m.num_job_groups) m.queue in
    (settle_each-Same q.events (record m { queue = record q { events = [] } })).3

restore_job-callbacks :
    (second now i : ℕ) (j : NewJob) (m : Manager)
    → (restore_job second now i j m).callbacks
      ≡ push_job_queue second now (i + 1) j.queue_timeout m.callbacks
unfolding restore_job
restore_job-callbacks second now i j m = ap (push_job_queue second now (i + 1) j.queue_timeout) (
    to_queue-callbacks i (
      set_job_id m.num_job_groups i j (record (register_job_name j.name m) {
        job_id = if leb m.job_id i then i + 1 else m.job_id;
      }))
    ∙ (register-Same j.name m).3)

-- After BuildAndPushJob of a single job of the history, with a queue timeout that is not negative,
-- a timeout of the queue is registered for the job exactly if one was before, and one is registered
-- for the id behind the job's.
pub restore_job-watches :
    (second now i : ℕ) (j : NewJob) (m : Manager)
    → ltb_ℤ j.queue_timeout (pos 0) ≡ false
    → (is_watched i (restore_job second now i j m).callbacks ≡ is_watched i m.callbacks)
      × (is_watched (i + 1) (restore_job second now i j m).callbacks ≡ true)
restore_job-watches second now i j m h =
    let e = restore_job-callbacks second now i j m in
    (
      ap (is_watched i) e
          ∙ push-watched i second now (i + 1) j.queue_timeout m.callbacks
          ∙ ground arith,
      ap (is_watched (i + 1)) e
          ∙ push-watched (i + 1) second now (i + 1) j.queue_timeout m.callbacks
          ∙ ground arith,
    )

-- ===== src/Master/Timeouts/Stopped.antt =====
-- CheckTimeouts (master/timeout_manager.cpp) and the jobs of the scheduler (master/scheduler.cpp).
use prun.Base.{
  ℕ, ◌≤◌, ◌≡◌, refl, ap, ◌∙◌, false, List, [], ◌∷◌, ◌++◌, ltb, arith, Bool-cases, inl, inr,
}
use prun.Master.JobStore.{is_in}
use prun.Master.Scheduler.{Scheduler}
use prun.Master.Scheduler.Stopping.{stop_job}
use prun.Master.Scheduler.Shrinking.{
  Shrinks, stop_job-Shrinks, on_task_timeout-Shrinks, stop_job_gone,
}
use prun.Master.Timeouts.{
  Callback, TimeToCallback, task_timeout, job_timeout, job_queue_timeout, stop_task_timeout,
  handle_timeout, handle_each, run_timeouts,
}
use prun.Master.Timeouts.Deadlines.{Ascending, due, check_timeouts-due}

handle_timeout-Shrinks : (i : ℕ) (c : Callback) (s : Scheduler) → Shrinks i s (handle_timeout c s)
unfolding handle_timeout
handle_timeout-Shrinks i (task_timeout t ip) s = on_task_timeout-Shrinks i t ip s
handle_timeout-Shrinks i (job_timeout j) s = stop_job-Shrinks i j s
handle_timeout-Shrinks i (job_queue_timeout j) s = λ h. h
handle_timeout-Shrinks i (stop_task_timeout c ip) s = λ h. h

handle_each-Shrinks : (i : ℕ) (cs : List Callback) (s : Scheduler) → Shrinks i s (handle_each cs s)
unfolding handle_each
handle_each-Shrinks i [] s h = h
handle_each-Shrinks i (c ∷ cs) s h =
    handle_each-Shrinks i cs (handle_timeout c s) (handle_timeout-Shrinks i c s h)

-- A job whose timeout is among the callbacks is not scheduled after them.
handle_each-stops :
    (j : ℕ) (xs ys : List Callback) (s : Scheduler)
    → is_in j (handle_each (xs ++ job_timeout j ∷ ys) s).jobs.order ≡ false
unfolding handle_each handle_timeout
handle_each-stops j [] ys s = handle_each-Shrinks j ys (stop_job j s) (stop_job_gone j s)
handle_each-stops j (x ∷ xs) ys s = handle_each-stops j xs ys (handle_timeout x s)

due-split :
    (now t j : ℕ) (xs ys : TimeToCallback)
    → ltb now t ≡ false
    → due now (xs ++ (t, job_timeout j) ∷ ys) ≡ due now xs ++ job_timeout j ∷ due now ys
unfolding due
due-split now t j [] ys h = rw h refl
due-split now t j ((u, d) ∷ xs) ys h = elim (Bool-cases (ltb now u)) [
  | inl e ↦ rw e (due-split now t j xs ys h)
  | inr e ↦ rw e (ap (λ l. d ∷ l) (due-split now t j xs ys h))
]

-- When the times are ascending, and among the entries is the timeout of a job whose time is over,
-- the job is not scheduled any more after CheckTimeouts, whatever the other callbacks do.
pub run_timeouts-stops :
    (now t j : ℕ) (xs ys : TimeToCallback) (s : Scheduler)
    → t ≤ now
    → Ascending (xs ++ (t, job_timeout j) ∷ ys)
    → is_in j (run_timeouts now (xs ++ (t, job_timeout j) ∷ ys) s).1.jobs.order ≡ false
unfolding run_timeouts
run_timeouts-stops now t j xs ys s h a =
    let l = xs ++ (t, job_timeout j) ∷ ys in
    ap (λ r. is_in j (handle_each r.0 s).jobs.order) (check_timeouts-due now l a)
    ∙ ap (λ cs. is_in j (handle_each cs s).jobs.order) (due-split now t j xs ys (ground arith))
    ∙ handle_each-stops j (due now xs) (due now ys) s

-- ===== src/Master/Scheduler/Refining.antt =====
-- GetTaskToSend (master/scheduler.cpp) is a step of the machine of waiting and running tasks.
use prun.Base.{
  ℕ, ◌≤◌, ◌≡◌, ◌≢◌, refl, sym, ap, ◌∙◌, Bool, true, false, not, ◌&&◌, ◌||◌, Option, none, [], ◌∷◌,
  Text, text_eq, text_eq_iff, ◌==◌, ltb, length, arith, Bool-cases, inl, inr,
}
use prun.Containers.IntSet
use prun.Containers.IntSet.{IntSet}
use prun.Containers.IntMap
use prun.Master.WorkerJob.{WorkerJob, has_task, plus}
use prun.Master.WorkerJob.Tasks.{IsValid}
use prun.Master.WorkerJob.Sums.{has_task-plus}
use prun.Master.Scheduler.{Scheduler, job_at}
use prun.Master.Scheduler.Frames.{put_at_same, put_at_other}
use prun.Master.Scheduler.Planning.{Plan}
use prun.Master.Scheduler.Sending.{give, plan_for, on_new_job, node_loop, get_task_to_send}
use prun.Master.Scheduler.Limits.{Planned}
use prun.Master.Scheduler.Searching.{get_job_for_worker-Searched}
use prun.Master.Scheduler.Bounds.{
  cpus, Ended, nobody, somebody, node_loop-Ended, give_fields, end_of,
}
use prun.Master.Scheduler.Conserving.{get_job_for_worker-Ascending, get_job_for_worker-conserves}
use prun.Master.Scheduler.Counting.{
  IsSingle, times_waiting, times_known, waits_not_planned, get_job_for_worker-times,
}
use prun.Master.Scheduler.Listing.{is_waiting, set_at_tasks}
use prun.Master.Scheduler.Machine.{TaskView, view, Step, send, plan, rest, on_new_job-Step}

-- What the loop of GetTaskToSend keeps until it gives tasks
record Kept (s : Scheduler) (p : Plan) : Type 0 where
  ascending : IntMap.Ascending p.scheduler.tasks_to_send
  waiting : (i u : ℕ) → is_waiting i u p.scheduler ≡ is_waiting i u s
  workers : p.scheduler.worker_of ≡ s.worker_of
  single : IsSingle p.scheduler

has_task_nil : (i u : ℕ) (w : WorkerJob) → w.jobs ≡ [] → has_task i u w ≡ false
unfolding has_task IntMap.find
has_task_nil i u w e = rw e refl

has_task_one :
    (i u j : ℕ) (ts : IntSet) (w : WorkerJob)
    → w.jobs ≡ (j, ts) ∷ []
    → has_task i u w ≡ (j == i && IntSet.contains u ts)
unfolding has_task IntMap.find
has_task_one i u j ts w e = rw e (ground arith)

-- What waits at most once is known at most once without planned tasks, also after the search.
known_once :
    (i u : ℕ) (ip : Text) (p : Plan)
    → IntMap.Ascending p.scheduler.tasks_to_send
    → times_waiting i u p.scheduler ≤ 1
    → p.planned.jobs ≡ []
    → times_known i u (plan_for ip p) ≤ 1
unfolding times_known
known_once i u ip p a m e =
    let q : Plan = record p { found = none } in
    let h = has_task_nil i u p.planned e in
    let k : times_known i u q ≤ 1 = ground arith in
    omega (arith, k, get_job_for_worker-times ip (cpus ip p) i u q a k)

waits_once : (i u : ℕ) (p : Plan) → times_known i u p ≤ 1 → times_waiting i u p.scheduler ≤ 1
unfolding times_known
waits_once i u p m = omega arith

search-Kept :
    (s : Scheduler) (ip : Text) (p : Plan)
    → Kept s p
    → p.planned.jobs ≡ []
    → (plan_for ip p).planned.jobs ≡ []
    → Kept s (plan_for ip p)
search-Kept s ip p k e d =
    let q : Plan = record p { found = none } in
    record {
      ascending = get_job_for_worker-Ascending ip (cpus ip p) 0 0 q k.ascending;
      waiting = λ i u.
          without (has_task_nil i u p.planned e) (has_task_nil i u (plan_for ip p).planned d)
            (get_job_for_worker-conserves ip (cpus ip p) i u q k.ascending)
          ∙ k.waiting i u;
      workers = (get_job_for_worker-Searched ip (cpus ip p) q).0 ∙ k.workers;
      single = λ i u.
          waits_once i u (plan_for ip p) (known_once i u ip p (k.ascending) (k.single i u) e);
    }
  where
    without : {a b c d : Bool} → c ≡ false → d ≡ false → (a || d) ≡ (b || c) → a ≡ b
    without e f h = ground arith

one-IsValid :
    (ip : Text) (cpu j : ℕ) (ts : IntSet) (w : WorkerJob) (s : Scheduler)
    → Planned ip cpu j ts w s
    → IsValid w
one-IsValid ip cpu j ts w s u = record {
  keys = rw u.jobs (tt, tt);
  sets = rw u.jobs (not_nil ts u.not_empty, u.ascending, tt);
}
  where
    not_nil : (l : IntSet) → 1 ≤ length l → l ≢ []
    not_nil l h e = ground arith

is_waiting-give :
    (ip : Text) (w : WorkerJob) (s : Scheduler) (i u : ℕ)
    → is_waiting i u (give ip w s) ≡ is_waiting i u s
unfolding is_waiting
is_waiting-give ip w s i u =
    let (a, b, c, d) = give_fields ip w s in
    rw (set_at_tasks i (give ip w s), c, d, sym (set_at_tasks i s)) refl

has_task-give :
    (ip : Text) (w : WorkerJob) (s : Scheduler) (r : Text) (i u : ℕ)
    → IsValid w
    → has_task i u (job_at r (give ip w s))
      ≡ ((text_eq ip r && has_task i u w) || has_task i u (job_at r s))
has_task-give ip w s r i u h =
    let v = record (s.worker_of ip) { job = plus (job_at ip s) w } in
    let a = ap (λ f. has_task i u (f r).job) (give_fields ip w s).0 in
    elim (Bool-cases (text_eq ip r)) [
      | inl e ↦
          let f : ip ≡ r = (text_eq_iff ip r).0 e in
          a
          ∙ ap (λ x. has_task i u x.job) (put_at_same ip r v s.worker_of e)
          ∙ has_task-plus i u (job_at ip s) w h
          ∙ rw (e, f) refl
      | inr e ↦ a ∙ ap (λ x. has_task i u x.job) (put_at_other ip r v s.worker_of e) ∙ rw e refl
    ]

give-Step :
    (s : Scheduler) (ip : Text) (p : Plan) (j : ℕ) (ts : IntSet)
    → Kept s p
    → p.planned.jobs ≡ []
    → Planned ip (cpus ip p) j ts (plan_for ip p).planned (plan_for ip p).scheduler
    → Step (view s) (view (give ip (plan_for ip p).planned (plan_for ip p).scheduler))
unfolding view
give-Step s ip p j ts k e h =
    let q = plan_for ip p in
    let known : (i u : ℕ)
        → (is_waiting i u q.scheduler || has_task i u q.planned)
          ≡ (is_waiting i u p.scheduler || has_task i u p.planned) =
      λ i u.
        get_job_for_worker-conserves ip (cpus ip p) i u (record p { found = none }) k.ascending in
    send ip j ts h.not_empty
      (λ i u x.
        had_waited (is_waiting i u q.scheduler) (has_task_nil i u p.planned e)
          (has_task_one i u j ts q.planned h.jobs) (known i u) (k.waiting i u) x)
      (λ i u.
        lost (is_waiting-give ip q.planned q.scheduler i u) (has_task_nil i u p.planned e)
          (has_task_one i u j ts q.planned h.jobs) (known i u) (k.waiting i u)
          (waits_not_planned i u q (known_once i u ip p k.ascending (k.single i u) e)))
      (λ r i u.
        had (text_eq ip r) (j == i) (IntSet.contains u ts)
          (has_task-give ip q.planned q.scheduler r i u
            (one-IsValid ip (cpus ip p) j ts q.planned q.scheduler h))
          (has_task_one i u j ts q.planned h.jobs)
          (ap (λ f. has_task i u (f r).job)
            ((get_job_for_worker-Searched ip (cpus ip p) (record p { found = none })).0
              ∙ k.workers)))
  where
    had_waited :
        (a : Bool) {b c d e z : Bool}
        → c ≡ false
        → d ≡ z
        → (a || d) ≡ (b || c)
        → b ≡ e
        → z ≡ true
        → e ≡ true
    had_waited a c d h b z = ground arith

    lost :
        {g a b c d e z : Bool}
        → g ≡ a
        → c ≡ false
        → d ≡ z
        → (a || d) ≡ (b || c)
        → b ≡ e
        → (a && d) ≡ false
        → g ≡ (not z && e)
    lost g c d h b m = ground arith

    had :
        (t x y : Bool) {g d a b : Bool}
        → g ≡ ((t && d) || a)
        → d ≡ (x && y)
        → a ≡ b
        → g ≡ ((t && x && y) || b)
    had t x y g d a = ground arith

-- A step may start in a state that looks the same.
Step-from :
    (a b c : TaskView)
    → ((i u : ℕ) → a.waiting i u ≡ c.waiting i u)
    → a.running ≡ c.running
    → Step a b
    → Step c b
Step-from a b c h r (send ip j ts l w f g) =
    send ip j ts l (λ i u x. sym (h i u) ∙ w i u x)
      (λ i u. f i u ∙ ap (λ x. not (j == i && IntSet.contains u ts) && x) (h i u))
      (λ q i u. g q i u ∙ ap (λ x. (text_eq ip q && j == i && IntSet.contains u ts) || x q i u) r)
Step-from a b c h r (plan j n f g) =
    plan j n (λ i u. f i u ∙ ap (λ x. (j == i && ltb u n) || x) (h i u)) (g ∙ r)
Step-from a b c h r (rest f g) = rest (λ i u. f i u ∙ h i u) (g ∙ r)

end_of-Step :
    (s : Scheduler) (r : Plan × Option Text)
    → Ended (Kept s) r
    → Step (view s) (view (end_of r).0.scheduler)
unfolding view
end_of-Step s r (nobody q k e) =
    Step-from (view q.scheduler) (view (on_new_job q.scheduler)) (view s) k.waiting
      (ap (λ f ip j t. has_task j t (f ip).job) k.workers) (on_new_job-Step q.scheduler)
end_of-Step s r (somebody ip p j ts k e f u) = give-Step s ip p j ts k e u

-- When GetTaskToSend is called without planned tasks, the keys of the tasks to send are in order, as
-- a map keeps them, and no task waits twice, it is one step of the machine: no task is lost, none
-- made up, and the tasks that a worker gets have waited and do not wait any more.
pub get_task_to_send-Step :
    (w : WorkerJob) (job : Option ℕ) (s : Scheduler)
    → w.jobs ≡ []
    → IntMap.Ascending s.tasks_to_send
    → IsSingle s
    → Step (view s) (view (get_task_to_send w job s).0.scheduler)
unfolding get_task_to_send
get_task_to_send-Step w job s e a m =
    let p : Plan = record { planned = w; found = none; job = job; scheduler = s } in
    end_of-Step s (node_loop s.priority p) (
      node_loop-Ended (Kept s) (search-Kept s) s.priority p
        (record { ascending = a; waiting = λ i u. refl; workers = refl; single = m }) e)

-- ===== src/Master/Scheduler/Fitting.antt =====
-- What AddTask makes of planned tasks that fit (master/scheduler.cpp).
use prun.Base.{
  ℕ, ◌+◌, ◌≤◌, ◌≡◌, refl, ap, ◌∙◌, Bool, true, false, Option, List, [], ◌∷◌, Text, leb, length,
  arith, inl, inr,
}
use prun.Containers.IntSet
use prun.Containers.IntSet.{IntSet}
use prun.Containers.IntMap
use prun.Containers.IntMap.{IntMap}
use prun.Master.WorkerJob.{
  WorkerTask, WorkerJob, add_task, set_exclusive, get_total_num_tasks, get_num_tasks, total,
  tasks_of,
}
use prun.Master.FailedWorkers.{is_worker_failed_job}
use prun.Master.Scheduler.{ScheduledJobs, Scheduler, increment_num_exec}
use prun.Master.Scheduler.Planning.{can_add_task_to_worker, is_permitted}
use prun.Master.Scheduler.Limits.{
  IsAllowed, FitsAt, Checked, can_add-Checked, Checked-IsAllowed, Planned,
}

-- Planned tasks of one job, and what AddTask makes of them
abbrev pub Holds : ℕ → IntSet → WorkerJob → Type 0
Holds j ts w = w.jobs ≡ (j, ts) ∷ []

put_same : (j : ℕ) (s u : IntSet) → IntMap.put j s ((j, u) ∷ []) ≡ (j, s) ∷ []
unfolding IntMap.put
put_same j s u = ground arith

tasks_same : (j : ℕ) (u : IntSet) → tasks_of j ((j, u) ∷ []) ≡ u
unfolding IntMap.find
tasks_same j u = ground arith

add_task_nil : (j t : ℕ) (w : WorkerJob) → w.jobs ≡ [] → Holds j (t ∷ []) (add_task j t w)
unfolding add_task IntMap.put IntMap.find IntSet.insert
add_task_nil j t w h = rw h refl

add_task_one :
    (j t : ℕ) (ts : IntSet) (w : WorkerJob)
    → Holds j ts w
    → Holds j (IntSet.insert t ts) (add_task j t w)
unfolding add_task IntMap.put IntMap.find
add_task_one j t ts w h = rw h (
    put_same j (IntSet.insert t (tasks_of j ((j, ts) ∷ []))) ts
    ∙ ap (λ u. (j, IntSet.insert t u) ∷ []) (tasks_same j ts))

pub total_nil : (w : WorkerJob) → w.jobs ≡ [] → get_total_num_tasks w ≡ 0
unfolding get_total_num_tasks
total_nil w h = rw h refl

pub Holds-total :
    (j : ℕ) (ts : IntSet) (w : WorkerJob) → Holds j ts w → get_total_num_tasks w ≡ length ts
unfolding get_total_num_tasks total
Holds-total j ts w h = rw h (omega arith)

pub Holds-num : (j : ℕ) (ts : IntSet) (w : WorkerJob) → Holds j ts w → get_num_tasks j w ≡ length ts
unfolding get_num_tasks IntMap.find
Holds-num j ts w h = rw h (ap length (tasks_same j ts))

-- The limits do not depend on the history and on the tasks that wait.
pub waiting-IsAllowed :
    (ip : Text) (j n : ℕ) (h : Option ℕ → Text → ℕ) (r : List WorkerTask) (q : IntMap IntSet)
    (js : ScheduledJobs) (s : Scheduler)
    → IsAllowed ip j n s
    → IsAllowed ip j n (record s { history = h; need_reschedule = r; tasks_to_send = q; jobs = js })
waiting-IsAllowed ip j n h r q js s a = record {
  not_failed = a.not_failed;
  permitted = a.permitted;
  at_worker = a.at_worker;
  at_cluster = a.at_cluster;
  executions = a.executions;
  alone = a.alone;
}

pub waiting-Planned :
    (ip : Text) (cpu j : ℕ) (ts : IntSet) (w : WorkerJob) (h : Option ℕ → Text → ℕ)
    (r : List WorkerTask) (q : IntMap IntSet) (js : ScheduledJobs) (s : Scheduler)
    → Planned ip cpu j ts w s
    → Planned ip cpu j ts w
        (record s { history = h; need_reschedule = r; tasks_to_send = q; jobs = js })
waiting-Planned ip cpu j ts w h r q js s a = record {
  jobs = a.jobs;
  ascending = a.ascending;
  not_empty = a.not_empty;
  within = a.within;
  allowed = waiting-IsAllowed ip j (length ts) h r q js s a.allowed;
}

module _ (ip : Text) (cpu j t : ℕ) (w : WorkerJob) (s : Scheduler) where
  -- One more task of the job, within the limits
  more-Planned :
      (ts : IntSet) (v : WorkerJob)
      → Holds j ts v
      → IntSet.Ascending ts
      → length ts ≤ get_num_tasks j w + 1
      → 1 ≤ length ts
      → length ts ≤ cpu
      → Checked ip w j s
      → is_worker_failed_job ip j s.failed ≡ false
      → is_permitted ip j s ≡ true
      → Planned ip cpu j ts v s
  more-Planned ts v h a n m l c f q = record {
    jobs = h;
    ascending = a;
    not_empty = m;
    within = l;
    allowed = Checked-IsAllowed ip w j (length ts) s c f q n;
  }

  pub add_task-Planned :
      FitsAt ip cpu j w s
      → leb cpu (get_total_num_tasks w) ≡ false
      → can_add_task_to_worker ip w j s ≡ true
      → is_worker_failed_job ip j s.failed ≡ false
      → is_permitted ip j s ≡ true
      → (ts : IntSet) × Planned ip cpu j ts (add_task j t w) s
  add_task-Planned (inl e) l c f q = (
    t ∷ [],
    more-Planned (t ∷ []) (add_task j t w) (add_task_nil j t w e) (tt, tt) (omega arith)
        (omega arith) (ground (arith, total_nil w e)) (can_add-Checked ip w j s c) f q,
  )
  add_task-Planned (inr (ts, h)) l c f q =
      let e = h.jobs in
      let a = h.ascending in
      (
        IntSet.insert t ts,
        more-Planned (IntSet.insert t ts) (add_task j t w) (add_task_one j t ts w e)
            (IntSet.insert-Ascending t ts a)
            (ground (arith, Holds-num j ts w e, IntSet.length-insert t ts a))
            (ground (arith, IntSet.length-insert t ts a))
            (ground (arith, Holds-total j ts w e, IntSet.length-insert t ts a))
            (can_add-Checked ip w j s c) f q,
      )

  pub take_first-Planned :
      (k : Option ℕ) (b : Bool) (ts : IntSet)
      → Planned ip cpu j ts w s
      → Planned ip cpu j ts (set_exclusive b w) (increment_num_exec k ip s)
  unfolding set_exclusive increment_num_exec
  take_first-Planned k b ts h = record {
    jobs = h.jobs;
    ascending = h.ascending;
    not_empty = h.not_empty;
    within = h.within;
    allowed =
        waiting-IsAllowed ip j (length ts) _ s.need_reschedule s.tasks_to_send s.jobs s h.allowed;
  }

-- ===== src/Master/Scheduler/Choosing.antt =====
-- The loops of GetJobForWorker (master/scheduler.cpp): what they plan.
use prun.Base.{
  ℕ, ◌≡◌, refl, Bool, true, false, not, ◌&&◌, ◌||◌, Option, none, some, List, [], ◌∷◌, Text, ◌==◌,
  leb, is_empty, arith, Bool-cases, inl, inr, subst,
}
use prun.Containers.IntSet
use prun.Containers.IntSet.{IntSet}
use prun.Containers.IntMap
use prun.Containers.IntMap.{IntMap}
use prun.Master.WorkerJob.{WorkerJob, add_task, get_total_num_tasks, get_job_id}
use prun.Master.FailedWorkers.{is_worker_failed_job}
use prun.Master.Scheduler.{Scheduler}
use prun.Master.Scheduler.Planning.{
  can_add_task_to_worker, is_permitted, Plan, take_first, get_resched_job_for_worker, task_loop,
  is_eligible, leave_tasks, tasks_at, take_tasks, job_loop, get_job_for_worker,
}
use prun.Master.Scheduler.Fitting.{waiting-Planned, add_task-Planned, take_first-Planned}
use prun.Master.Scheduler.Limits.{Planned}
use prun.Master.Scheduler.Limits.{Fits, nothing, tasks, none_yet, tasks_of_it, FitsAt}
use prun.Master.Scheduler.Rescheduling.{FoundIn, resched-FoundIn}

module _ (ip : Text) (cpu : ℕ) where
  -- Whether the inner loop of GetJobForWorker breaks
  abbrev stops : ℕ → Plan → Bool
  stops j p =
      leb cpu (get_total_num_tasks p.planned)
      || not (can_add_task_to_worker ip p.planned j p.scheduler)

  take_one-Planned :
      (k : Option ℕ) (j t : ℕ) (p : Plan)
      → is_worker_failed_job ip j p.scheduler.failed ≡ false
      → is_permitted ip j p.scheduler ≡ true
      → FitsAt ip cpu j p.planned p.scheduler
      → stops j p ≡ false
      → (us : IntSet) × Planned ip cpu j us
          (take_first ip k j t p).planned
          (take_first ip k j t p).scheduler
  unfolding take_first
  take_one-Planned k j t p f q h e =
      let (us, u) =
        add_task-Planned ip cpu j t p.planned p.scheduler h (ground arith) (ground arith) f q in
      (us, take_first-Planned ip cpu j t (add_task j t p.planned) p.scheduler k _ us u)

  pub task_loop-FitsAt :
      (k : Option ℕ) (j : ℕ) (ts : IntSet) (p : Plan)
      → is_worker_failed_job ip j p.scheduler.failed ≡ false
      → is_permitted ip j p.scheduler ≡ true
      → FitsAt ip cpu j p.planned p.scheduler
      → FitsAt ip cpu j
          (task_loop ip cpu k j ts p).0.planned
          (task_loop ip cpu k j ts p).0.scheduler
  unfolding task_loop
  task_loop-FitsAt k j [] p f q h = h
  task_loop-FitsAt k j (t ∷ ts) p f q h = elim (Bool-cases (stops j p)) [
    | inl e ↦ rw e h
    | inr e ↦
        let (us, u) = take_one-Planned k j t p f q h e in
        rw e (
          task_loop-FitsAt k j ts (take_first ip k j t p) u.allowed.not_failed u.allowed.permitted
            (inr (us, u)))
  ]

  -- What is known of the job at which the loop of GetJobForWorker stops
  pub record Eligible (k : Option ℕ) (j : ℕ) (p : Plan) : Type 0 where
    pub not_sent : IntSet.contains j p.scheduler.jobs.sent ≡ false
    pub same_job :
        elim p.found [ none ↦ true | some i ↦ elim k [ none ↦ false | some l ↦ l == j ] ] ≡ true
    pub not_failed : is_worker_failed_job ip j p.scheduler.failed ≡ false
    pub can_add : can_add_task_to_worker ip p.planned j p.scheduler ≡ true
    pub has_tasks : is_empty (tasks_at j p.scheduler) ≡ false
    pub permitted : is_permitted ip j p.scheduler ≡ true

  six :
      (a b c d e f : Bool)
      → (not a && b && not c && d && e && f) ≡ true
      → (a ≡ false) × (b ≡ true) × (c ≡ false) × (d ≡ true) × (e ≡ true) × (f ≡ true)
  six a b c d e f h =
      (ground arith, ground arith, ground arith, ground arith, ground arith, ground arith)

  some_tasks :
      (o : Option IntSet)
      → elim o [ none ↦ false | some q ↦ not (is_empty q) ] ≡ true
      → is_empty (elim o [ none ↦ [] | some q ↦ q ]) ≡ false
  some_tasks o h = ground arith

  pub is_eligible-Eligible :
      (k : Option ℕ) (j : ℕ) (p : Plan) → is_eligible ip k j p ≡ true → Eligible k j p
  unfolding is_eligible
  is_eligible-Eligible k j p h =
      let (a, b, c, d, e, f) = six _ _ _ _ _ _ h in
      record {
        not_sent = a;
        same_job = b;
        not_failed = c;
        can_add = d;
        has_tasks = some_tasks (IntMap.find j p.scheduler.tasks_to_send) e;
        permitted = f;
      }

  leave_tasks-FitsAt :
      (j : ℕ) (left : IntSet) (w : WorkerJob) (s : Scheduler)
      → FitsAt ip cpu j w s
      → FitsAt ip cpu j w (leave_tasks j left s)
  leave_tasks-FitsAt j left w s (inl e) = inl e
  leave_tasks-FitsAt j [] w s (inr (us, u)) = inr (us, waiting-Planned ip cpu j us w _ _ _ _ _ u)
  leave_tasks-FitsAt j (t ∷ ts) w s (inr (us, u)) =
      inr (us, waiting-Planned ip cpu j us w _ _ _ _ _ u)

  FitsAt-Fits : (j : ℕ) (w : WorkerJob) (s : Scheduler) → FitsAt ip cpu j w s → Fits ip cpu w s
  FitsAt-Fits j w s (inl e) = nothing e
  FitsAt-Fits j w s (inr (us, u)) = tasks j us u

  take_tasks-Fits :
      (k : Option ℕ) (j : ℕ) (p : Plan)
      → Eligible k j p
      → FitsAt ip cpu j p.planned p.scheduler
      → Fits ip cpu (take_tasks ip cpu k j p).planned (take_tasks ip cpu k j p).scheduler
  unfolding take_tasks
  take_tasks-Fits k j p a h = FitsAt-Fits j _ _ (
      leave_tasks-FitsAt j _ _ _
        (task_loop-FitsAt k j (tasks_at j p.scheduler) p a.not_failed a.permitted h))

  same_id :
      (o k : Option ℕ) (i j : ℕ)
      → o ≡ some i
      → k ≡ some i
      → elim o [ none ↦ true | some x ↦ elim k [ none ↦ false | some l ↦ l == j ] ] ≡ true
      → i ≡ j
  same_id o k i j e f h = ground arith

  -- The job at which the loop stops is the one of the tasks to reschedule.
  Found-FitsAt :
      (j : ℕ) (p : Plan)
      → FoundIn ip cpu p
      → Eligible (get_job_id p.planned) j p
      → FitsAt ip cpu j p.planned p.scheduler
  unfolding get_job_id
  Found-FitsAt j p (none_yet e o) a = inl e
  Found-FitsAt j p (tasks_of_it i us u o) a =
      let e = same_id p.found (get_job_id p.planned) i j o (rw u.jobs refl) a.same_job in
      inr (us, subst (λ x. Planned ip cpu x us p.planned p.scheduler) e u)

  Found-Fits : (p : Plan) → FoundIn ip cpu p → Fits ip cpu p.planned p.scheduler
  Found-Fits p (none_yet e o) = nothing e
  Found-Fits p (tasks_of_it i us u o) = tasks i us u

  job_loop-Fits :
      (js : List ℕ) (p : Plan)
      → FoundIn ip cpu p
      → Fits ip cpu
          (job_loop ip cpu (get_job_id p.planned) js p).planned
          (job_loop ip cpu (get_job_id p.planned) js p).scheduler
  unfolding job_loop
  job_loop-Fits [] p h = Found-Fits p h
  job_loop-Fits (j ∷ js) p h = elim (Bool-cases (is_eligible ip (get_job_id p.planned) j p)) [
    | inl e ↦
        let a = is_eligible-Eligible (get_job_id p.planned) j p e in
        rw e (take_tasks-Fits (get_job_id p.planned) j p a (Found-FitsAt j p h a))
    | inr e ↦ rw e (job_loop-Fits js p h)
  ]

  pub get_job_for_worker-Fits :
      (p : Plan)
      → p.planned.jobs ≡ []
      → p.found ≡ none
      → Fits ip cpu (get_job_for_worker ip cpu p).planned (get_job_for_worker ip cpu p).scheduler
  unfolding get_job_for_worker
  get_job_for_worker-Fits p e o =
      let q = get_resched_job_for_worker ip cpu p in
      job_loop-Fits q.scheduler.jobs.order q (resched-FoundIn ip cpu p (none_yet e o))

-- ===== src/Master/Scheduler/Rescheduling.antt =====
-- The loop of GetReschedJobForWorker (master/scheduler.cpp): what it plans.
use prun.Base.{
  ℕ, ◌≡◌, refl, Bool, true, false, not, ◌&&◌, Option, none, some, List, [], ◌∷◌, Text, ◌==◌, leb,
  if◌then◌else◌, arith, Bool-cases, inl, inr, subst,
}
use prun.Master.WorkerJob.{WorkerTask, add_task, get_total_num_tasks}
use prun.Master.FailedWorkers.{is_worker_failed_job}
use prun.Master.Scheduler.Planning.{
  can_add_task_to_worker, find_job_by_job_id, is_permitted, Plan, look_up, takes, take_first,
  take_resched, resched_loop, get_resched_job_for_worker,
}
use prun.Master.Scheduler.Fitting.{waiting-Planned, add_task-Planned, take_first-Planned}
use prun.Master.Scheduler.Limits.{Found, none_yet, tasks_of_it}

abbrev pub FoundIn : Text → ℕ → Plan → Type 0
FoundIn ip cpu p = Found ip cpu p.found p.planned p.scheduler

module _ (ip : Text) (cpu : ℕ) where
  look_up-FoundIn : (j : ℕ) (p : Plan) → FoundIn ip cpu p → FoundIn ip cpu (look_up j p)
  look_up-FoundIn j p h = elim (Bool-cases (find_job_by_job_id j p.scheduler)) [
    | inl e ↦ rw e h
    | inr e ↦ rw e h
  ]

  both : (a b : Bool) → (a && b) ≡ true → (a ≡ true) × (b ≡ true)
  both a b h = (ground arith, ground arith)

  three : (a b c : Bool) → (a && b && c) ≡ true → (a ≡ true) × (b ≡ true) × (c ≡ true)
  three a b c h = (ground arith, ground arith, ground arith)

  -- What decides whether a task is taken
  abbrev pub Allows : ℕ → Plan → Option ℕ → Type 0
  Allows j p o =
      elim o [
        | none ↦ not (is_worker_failed_job ip j p.scheduler.failed) && is_permitted ip j p.scheduler
        | some i ↦ j == i
      ]
      ≡ true

  pub takes-Allows :
      (j : ℕ) (p : Plan)
      → takes ip j p ≡ true
      → (find_job_by_job_id j p.scheduler ≡ true)
        × (can_add_task_to_worker ip p.planned j p.scheduler ≡ true)
        × Allows j p p.found
  unfolding takes
  takes-Allows j p h =
      three (find_job_by_job_id j p.scheduler) (can_add_task_to_worker ip p.planned j p.scheduler) _
        h

  -- A taken task belongs to the job that was found, or its job becomes that.
  take_resched-FoundIn :
      (j t : ℕ) (p : Plan)
      → FoundIn ip cpu p
      → leb cpu (get_total_num_tasks p.planned) ≡ false
      → takes ip j p ≡ true
      → FoundIn ip cpu (take_resched ip j t p)
  unfolding take_resched take_first
  take_resched-FoundIn j t p (none_yet e o) l h =
      let (a, c, b) = takes-Allows j p h in
      let (f, q) =
        both (not (is_worker_failed_job ip j p.scheduler.failed)) _ (subst (Allows j p) o b) in
      let (ts, r) =
        add_task-Planned ip cpu j t p.planned p.scheduler (inl e) l c (ground arith) q in
      rw o (
        tasks_of_it j ts
          (take_first-Planned ip cpu j t (add_task j t p.planned) p.scheduler (some j) _ ts r) refl)
  take_resched-FoundIn j t p (tasks_of_it i us u o) l h =
      let (a, c, b) = takes-Allows j p h in
      let e : j ≡ i = ground (arith, subst (Allows j p) o b) in
      let (ts, r) =
        add_task-Planned ip cpu i t p.planned p.scheduler (inr (us, u)) l
          (subst (λ x. can_add_task_to_worker ip p.planned x p.scheduler ≡ true) e c)
          u.allowed.not_failed u.allowed.permitted in
      rw o (tasks_of_it i ts r refl)

  resched_step-FoundIn :
      (j t : ℕ) (p : Plan)
      → FoundIn ip cpu p
      → leb cpu (get_total_num_tasks p.planned) ≡ false
      → FoundIn ip cpu (if takes ip j p then take_resched ip j t (look_up j p) else look_up j p)
  unfolding takes
  resched_step-FoundIn j t p h l = elim (Bool-cases (takes ip j p)) [
    | inl e ↦
        rw (e, (takes-Allows j p e).0) (take_resched-FoundIn j t (record p { job = some j }) h l e)
    | inr e ↦ rw e (look_up-FoundIn j p h)
  ]

  resched_loop-FoundIn :
      (ts : List WorkerTask) (p : Plan)
      → FoundIn ip cpu p
      → FoundIn ip cpu (resched_loop ip cpu ts p).0
  unfolding resched_loop
  resched_loop-FoundIn [] p h = h
  resched_loop-FoundIn (t ∷ ts) p h = elim (Bool-cases (leb cpu (get_total_num_tasks p.planned))) [
    | inl e ↦ rw e h
    | inr e ↦ rw e (resched_loop-FoundIn ts _ (resched_step-FoundIn t.job_id t.task_id p h e))
  ]

  pub resched-FoundIn :
      (p : Plan) → FoundIn ip cpu p → FoundIn ip cpu (get_resched_job_for_worker ip cpu p)
  unfolding get_resched_job_for_worker
  resched-FoundIn p h = elim (resched_loop-FoundIn p.scheduler.need_reschedule p h) [
    | none_yet e o ↦ none_yet e o
    | tasks_of_it j ts q o ↦ tasks_of_it j ts (waiting-Planned ip cpu j ts _ _ _ _ _ _ q) o
  ]

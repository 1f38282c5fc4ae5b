-- ===== src/Master/Scheduler/Searching.antt =====
-- What the searches of GetJobForWorker (master/scheduler.cpp) leave as it was, and the history.
use prun.Base.{
  ℕ, ◌≡◌, refl, ◌∙◌, Bool, true, false, not, ◌||◌, Option, some, List, [], ◌∷◌, Text, leb,
  if◌then◌else◌, Bool-cases, Option-cases, inl, inr,
}
use prun.Containers.IntSet.{IntSet}
use prun.Master.WorkerJob.{WorkerTask, get_total_num_tasks, get_job_id}
use prun.Master.Scheduler.{increment_num_exec}
use prun.Master.Scheduler.Planning.{
  can_add_task_to_worker, find_job_by_job_id, Plan, look_up, takes, take_first, take_resched,
  resched_loop, get_resched_job_for_worker, task_loop, is_eligible, leave_tasks, tasks_at,
  take_tasks, job_loop, get_job_for_worker,
}

-- The workers, the queue, and what decides on a task, are the same; the tasks that wait, those that
-- are planned and the history may change.
abbrev pub Searched : Plan → Plan → Type 0
Searched p q =
    (q.scheduler.worker_of ≡ p.scheduler.worker_of)
    × (q.scheduler.busy ≡ p.scheduler.busy)
    × (q.scheduler.nodes ≡ p.scheduler.nodes)
    × (q.scheduler.spec_of ≡ p.scheduler.spec_of)
    × (q.scheduler.failed ≡ p.scheduler.failed)
    × (q.scheduler.simult_exec_cnt ≡ p.scheduler.simult_exec_cnt)
    × (q.scheduler.jobs.order ≡ p.scheduler.jobs.order)

pub unchanged : (p : Plan) → Searched p p
unchanged p = (refl, refl, refl, refl, refl, refl, refl)

pub then-Searched : (p q r : Plan) → Searched p q → Searched q r → Searched p r
then-Searched p q r (a, b, c, d, e, f, g) (a', b', c', d', e', f', g') =
    (a' ∙ a, b' ∙ b, c' ∙ c, d' ∙ d, e' ∙ e, f' ∙ f, g' ∙ g)

if-Searched :
    (b : Bool) (p q r : Plan) → Searched p q → Searched p r → Searched p (if b then q else r)
if-Searched true p q r h k = h
if-Searched false p q r h k = k

look_up-Searched : (j : ℕ) (p : Plan) → Searched p (look_up j p)
look_up-Searched j p =
    if-Searched (find_job_by_job_id j p.scheduler) p (record p { job = some j }) p (unchanged p)
      (unchanged p)

take_first-Searched :
    (ip : Text) (k : Option ℕ) (j t : ℕ) (p : Plan) → Searched p (take_first ip k j t p)
unfolding take_first increment_num_exec
take_first-Searched ip k j t p = unchanged p

take_resched-Searched : (ip : Text) (j t : ℕ) (p : Plan) → Searched p (take_resched ip j t p)
unfolding take_resched
take_resched-Searched ip j t p = elim (Option-cases p.found) [
  | inl e ↦ rw (e, take_resched) (take_first-Searched ip (some j) j t p)
  | inr (i, e) ↦ rw (e, take_resched) (unchanged p)
]

-- The body of the loop of GetReschedJobForWorker
abbrev pub resched_step : Text → WorkerTask → Plan → Plan
resched_step ip t p =
    if takes ip t.job_id p
    then take_resched ip t.job_id t.task_id (look_up t.job_id p)
    else look_up t.job_id p

resched_step-Searched : (ip : Text) (t : WorkerTask) (p : Plan) → Searched p (resched_step ip t p)
resched_step-Searched ip t p =
    let q = look_up t.job_id p in
    if-Searched (takes ip t.job_id p) p (take_resched ip t.job_id t.task_id q) q
      (then-Searched p q (take_resched ip t.job_id t.task_id q) (look_up-Searched t.job_id p)
        (take_resched-Searched ip t.job_id t.task_id q))
      (look_up-Searched t.job_id p)

module _ (ip : Text) (cpu : ℕ) where
  resched_loop-Searched :
      (ts : List WorkerTask) (p : Plan) → Searched p (resched_loop ip cpu ts p).0
  unfolding resched_loop
  resched_loop-Searched [] p = unchanged p
  resched_loop-Searched (t ∷ ts) p = elim (Bool-cases (leb cpu (get_total_num_tasks p.planned))) [
    | inl e ↦ rw e (unchanged p)
    | inr e ↦ rw e (
        then-Searched p (resched_step ip t p) (resched_loop ip cpu ts (resched_step ip t p)).0
          (resched_step-Searched ip t p) (resched_loop-Searched ts (resched_step ip t p)))
  ]

  pub resched-Searched : (p : Plan) → Searched p (get_resched_job_for_worker ip cpu p)
  unfolding get_resched_job_for_worker
  resched-Searched p = resched_loop-Searched p.scheduler.need_reschedule p

  task_loop-Searched :
      (k : Option ℕ) (j : ℕ) (ts : IntSet) (p : Plan) → Searched p (task_loop ip cpu k j ts p).0
  unfolding task_loop
  task_loop-Searched k j [] p = unchanged p
  task_loop-Searched k j (t ∷ ts) p =
      elim (Bool-cases (
        leb cpu (get_total_num_tasks p.planned)
        || not (can_add_task_to_worker ip p.planned j p.scheduler))) [
          | inl e ↦ rw e (unchanged p)
          | inr e ↦ rw e (
              then-Searched p (take_first ip k j t p)
                (task_loop ip cpu k j ts (take_first ip k j t p)).0 (take_first-Searched ip k j t p)
                (task_loop-Searched k j ts (take_first ip k j t p)))
        ]

  left_tasks-Searched :
      (j : ℕ) (left : IntSet) (p q : Plan)
      → Searched p q
      → Searched p (record q { job = some j; scheduler = leave_tasks j left q.scheduler })
  left_tasks-Searched j [] p q h = h
  left_tasks-Searched j (t ∷ ts) p q h = h

  take_tasks-Searched : (k : Option ℕ) (j : ℕ) (p : Plan) → Searched p (take_tasks ip cpu k j p)
  unfolding take_tasks
  take_tasks-Searched k j p =
      left_tasks-Searched j (task_loop ip cpu k j (tasks_at j p.scheduler) p).1 p
        (task_loop ip cpu k j (tasks_at j p.scheduler) p).0
        (task_loop-Searched k j (tasks_at j p.scheduler) p)

  job_loop-Searched : (k : Option ℕ) (js : List ℕ) (p : Plan) → Searched p (job_loop ip cpu k js p)
  unfolding job_loop
  job_loop-Searched k [] p = unchanged p
  job_loop-Searched k (j ∷ js) p =
      if-Searched (is_eligible ip k j p) p (take_tasks ip cpu k j p) (job_loop ip cpu k js p)
        (take_tasks-Searched k j p) (job_loop-Searched k js p)

  pub get_job_for_worker-Searched : (p : Plan) → Searched p (get_job_for_worker ip cpu p)
  unfolding get_job_for_worker
  get_job_for_worker-Searched p =
      let q = get_resched_job_for_worker ip cpu p in
      then-Searched p q (job_loop ip cpu (get_job_id q.planned) q.scheduler.jobs.order q)
        (resched-Searched p) (job_loop-Searched (get_job_id q.planned) q.scheduler.jobs.order q)

-- ===== src/Master/Scheduler/Counting.antt =====
-- How many times a task waits or is planned, before and after GetJobForWorker (master/scheduler.cpp).
use prun.Base.{
  ℕ, ◌+◌, ◌≤◌, ◌≡◌, refl, sym, ap, ◌∙◌, Bool, true, false, not, ◌&&◌, ◌||◌, Option, none, some,
  List, [], ◌∷◌, Text, ◌==◌, leb, if◌then◌else◌, arith, Bool-cases, inl, inr,
}
use prun.Containers.IntSet
use prun.Containers.IntSet.{IntSet}
use prun.Containers.IntMap
use prun.Master.WorkerJob.{WorkerTask, has_task, get_total_num_tasks, get_job_id}
use prun.Master.WorkerJob.Sums.{listed}
use prun.Master.JobQueue.Dependencies.{count}
use prun.Master.Scheduler.{Scheduler}
use prun.Master.Scheduler.Planning.{
  can_add_task_to_worker, Plan, takes, take_first, resched_loop, get_resched_job_for_worker,
  task_loop, is_eligible, leave_tasks, tasks_at, take_tasks, job_loop, get_job_for_worker,
}
use prun.Master.Scheduler.Searching.{resched_step}
use prun.Master.Scheduler.Listing.{
  is_waiting, set_at, set_at_tasks, has_task-take_first, has_task-resched_step,
  resched_loop-SameSets,
}
use prun.Master.Scheduler.Conserving.{task_loop_rest, leave_tasks_list, resched-Ascending}

abbrev one_if : Bool → ℕ
one_if b = if b then 1 else 0

-- How many entries of the list of tasks to reschedule are this task
abbrev pub times_listed : ℕ → ℕ → List WorkerTask → ℕ
times_listed i u [] = 0
times_listed i u (t ∷ ts) = one_if (t.job_id == i && t.task_id == u) + times_listed i u ts

-- How many entries of the tasks to send and of those to reschedule are this task
unfoldable pub times_waiting : ℕ → ℕ → Scheduler → ℕ
times_waiting i u s = times_listed i u s.need_reschedule + count u (tasks_at i s)

-- The same, and once more if it is planned
unfoldable pub times_known : ℕ → ℕ → Plan → ℕ
unfolding times_waiting
times_known i u p = times_waiting i u p.scheduler + one_if (has_task i u p.planned)

-- No task waits twice.
abbrev pub IsSingle : Scheduler → Type 0
IsSingle s = (i u : ℕ) → times_waiting i u s ≤ 1

contains-count : (u : ℕ) (q : IntSet) → IntSet.contains u q ≡ leb 1 (count u q)
unfolding IntSet.contains
contains-count u [] = refl
contains-count u (t ∷ q) = ground (arith, contains-count u q)

listed-times : (i u : ℕ) (l : List WorkerTask) → listed i u l ≡ leb 1 (times_listed i u l)
listed-times i u [] = refl
listed-times i u (t ∷ l) = ground (arith, listed-times i u l)

-- A task that is known once does not wait when it is planned.
pub waits_not_planned :
    (i u : ℕ) (p : Plan)
    → times_known i u p ≤ 1
    → (is_waiting i u p.scheduler && has_task i u p.planned) ≡ false
unfolding times_known times_waiting is_waiting
waits_not_planned i u p m =
    ground (
      arith,
      contains-count u (tasks_at i p.scheduler),
      listed-times i u p.scheduler.need_reschedule,
    )

none_or :
    (b : Bool) (o : Option IntSet) → set_at (if b then none else o) ≡ (if b then [] else set_at o)
none_or true o = refl
none_or false o = refl

some_or :
    (b : Bool) (q : IntSet) (o : Option IntSet)
    → set_at (if b then some q else o) ≡ (if b then q else set_at o)
some_or true q o = refl
some_or false q o = refl

module _ (ip : Text) (cpu i u : ℕ) where
  times_listed-if :
      (b : Bool) (l : List WorkerTask) (t : WorkerTask)
      → times_listed i u (if b then l else t ∷ l) ≡ (
          if b
          then times_listed i u l
          else one_if (t.job_id == i && t.task_id == u) + times_listed i u l)
  times_listed-if true l t = refl
  times_listed-if false l t = refl

  -- A task that is taken is not known before, and is planned then.
  moves :
      (taken at_t h0 h h' : Bool) (l l' : ℕ)
      → h ≡ ((taken && at_t) || h0)
      → one_if at_t + l + one_if h0 ≤ 1
      → (l + one_if h ≤ 1 → l' + one_if h' ≡ l + one_if h)
      → (if taken then l' else one_if at_t + l') + one_if h' ≡ one_if at_t + l + one_if h0
  moves true true true h h' l l' e m f = absurd (ground arith)
  moves true true false h h' l l' e m f = ground (arith, f)
  moves true false h0 h h' l l' e m f = ground (arith, f)
  moves false at_t h0 h h' l l' e m f = ground (arith, f)

  resched_loop-times :
      (ts : List WorkerTask) (p : Plan)
      → times_listed i u ts + one_if (has_task i u p.planned) ≤ 1
      → let (q, left) = resched_loop ip cpu ts p in
        times_listed i u left + one_if (has_task i u q.planned)
        ≡ times_listed i u ts + one_if (has_task i u p.planned)
  unfolding resched_loop
  resched_loop-times [] p m = refl
  resched_loop-times (t ∷ ts) p m = elim (Bool-cases (leb cpu (get_total_num_tasks p.planned))) [
    | inl e ↦ rw e refl
    | inr e ↦
        let q = resched_step ip t p in
        let r = resched_loop ip cpu ts q in
        rw (e, times_listed-if (takes ip t.job_id p) r.1 t)
          (moves (takes ip t.job_id p) (t.job_id == i && t.task_id == u) (has_task i u p.planned)
            (has_task i u q.planned) (has_task i u r.0.planned) (times_listed i u ts)
            (times_listed i u r.1) (has_task-resched_step ip cpu i u t p) m
            (resched_loop-times ts q))
  ]

  resched-times :
      (p : Plan)
      → times_known i u p ≤ 1
      → times_known i u (get_resched_job_for_worker ip cpu p) ≡ times_known i u p
  unfolding get_resched_job_for_worker times_known times_waiting
  resched-times p m =
      let r = resched_loop ip cpu p.scheduler.need_reschedule p in
      rw (resched_loop-SameSets ip cpu i u p.scheduler.need_reschedule p)
        (ground (arith, resched_loop-times p.scheduler.need_reschedule p))

  -- The same for the tasks of one job
  abbrev at_job : ℕ → IntSet → ℕ
  at_job j ts = if j == i then count u ts else 0

  at_job-cons :
      (j t : ℕ) (ts : IntSet) → at_job j (t ∷ ts) ≡ one_if (j == i && t == u) + at_job j ts
  at_job-cons j t ts = ground arith

  task_loop-times :
      (k : Option ℕ) (j : ℕ) (ts : IntSet) (p : Plan)
      → at_job j ts + one_if (has_task i u p.planned) ≤ 1
      → let (q, left) = task_loop ip cpu k j ts p in
        at_job j left + one_if (has_task i u q.planned)
        ≡ at_job j ts + one_if (has_task i u p.planned)
  unfolding task_loop
  task_loop-times k j [] p m = refl
  task_loop-times k j (t ∷ ts) p m =
      elim (Bool-cases (
        leb cpu (get_total_num_tasks p.planned)
        || not (can_add_task_to_worker ip p.planned j p.scheduler))) [
          | inl e ↦ rw e refl
          | inr e ↦
              let q = take_first ip k j t p in
              let r = task_loop ip cpu k j ts q in
              let c = at_job-cons j t ts in
              let m' : one_if (j == i && t == u) + at_job j ts + one_if (has_task i u p.planned)
                  ≤ 1 =
                omega (arith, m, c) in
              rw e (
                moves true (j == i && t == u) (has_task i u p.planned) (has_task i u q.planned)
                  (has_task i u r.0.planned) (at_job j ts) (at_job j r.1)
                  (has_task-take_first ip k j t i u p) m' (task_loop-times k j ts q)
                ∙ ap (λ n. n + one_if (has_task i u p.planned)) (sym c))
        ]

  tasks_at_left :
      (j : ℕ) (left : IntSet) (s : Scheduler)
      → IntMap.Ascending s.tasks_to_send
      → tasks_at i (leave_tasks j left s) ≡ (if j == i then left else tasks_at i s)
  tasks_at_left j [] s a =
      set_at_tasks i (leave_tasks j [] s)
      ∙ ap set_at (IntMap.find-erase j i s.tasks_to_send a)
      ∙ none_or (j == i) (IntMap.find i s.tasks_to_send)
      ∙ ap (λ q. if j == i then [] else q) (sym (set_at_tasks i s))
  tasks_at_left j (t ∷ ts) s a =
      set_at_tasks i (leave_tasks j (t ∷ ts) s)
      ∙ ap set_at (IntMap.find-put j i (t ∷ ts) s.tasks_to_send)
      ∙ some_or (j == i) (t ∷ ts) (IntMap.find i s.tasks_to_send)
      ∙ ap (λ q. if j == i then t ∷ ts else q) (sym (set_at_tasks i s))

  count-if :
      (b : Bool) (x y : IntSet)
      → count u (if b then x else y) ≡ (if b then count u x else count u y)
  count-if true x y = refl
  count-if false x y = refl

  take_tasks-times :
      (k : Option ℕ) (j : ℕ) (p : Plan)
      → IntMap.Ascending p.scheduler.tasks_to_send
      → times_known i u p ≤ 1
      → times_known i u (take_tasks ip cpu k j p) ≡ times_known i u p
  unfolding take_tasks times_known times_waiting
  take_tasks-times k j p a m =
      let ts = tasks_at j p.scheduler in
      let r = task_loop ip cpu k j ts p in
      let (d, e) = task_loop_rest ip cpu i u k j ts p in
      let f : count u (tasks_at i (leave_tasks j r.1 r.0.scheduler))
          ≡ (if j == i then count u r.1 else count u (tasks_at i p.scheduler)) =
        ap (count u) (tasks_at_left j r.1 r.0.scheduler (rw e a))
        ∙ count-if (j == i) r.1 (tasks_at i r.0.scheduler)
        ∙ ap (λ q. if j == i then count u r.1 else count u q)
            (set_at_tasks i r.0.scheduler
              ∙ ap (λ g. set_at (IntMap.find i g)) e
              ∙ sym (set_at_tasks i p.scheduler)) in
      let g = ap (times_listed i u) (leave_tasks_list ip cpu i u j r.1 r.0.scheduler ∙ d) in
      let same : (j == i) ≡ true → count u ts ≡ count u (tasks_at i p.scheduler) =
        λ h. let x : j ≡ i = ground arith in ap (λ y. count u (tasks_at y p.scheduler)) x in
      ground (arith, f, g, same, task_loop-times k j ts p)

  job_loop-times :
      (k : Option ℕ) (js : List ℕ) (p : Plan)
      → IntMap.Ascending p.scheduler.tasks_to_send
      → times_known i u p ≤ 1
      → times_known i u (job_loop ip cpu k js p) ≡ times_known i u p
  unfolding job_loop
  job_loop-times k [] p a m = refl
  job_loop-times k (j ∷ js) p a m = elim (Bool-cases (is_eligible ip k j p)) [
    | inl e ↦ rw e (take_tasks-times k j p a m)
    | inr e ↦ rw e (job_loop-times k js p a m)
  ]

  -- When the keys of the tasks to send are in order, as a map keeps them, and a task waits at most
  -- once, for its first sending or a further one, and does not if it is planned, then after
  -- GetJobForWorker it waits or is planned as many times as before: a task that is planned does not
  -- wait any more, and none is lost or made up.
  pub get_job_for_worker-times :
      (p : Plan)
      → IntMap.Ascending p.scheduler.tasks_to_send
      → times_known i u p ≤ 1
      → times_known i u (get_job_for_worker ip cpu p) ≡ times_known i u p
  unfolding get_job_for_worker
  get_job_for_worker-times p a m =
      let q = get_resched_job_for_worker ip cpu p in
      let e = resched-times p m in
      job_loop-times (get_job_id q.planned) q.scheduler.jobs.order q
        (resched-Ascending ip cpu i u p a) (omega (arith, e, m))
      ∙ e

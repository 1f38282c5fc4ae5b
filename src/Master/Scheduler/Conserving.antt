-- ===== src/Master/Scheduler/Conserving.antt =====
-- No task is lost or made up when tasks are planned for a worker (GetJobForWorker of
-- master/scheduler.cpp).
use prun.Base.{
  ℕ, ◌≡◌, refl, sym, ◌∙◌, Bool, true, not, ◌&&◌, ◌||◌, Option, List, [], ◌∷◌, Text, ◌==◌, leb,
  if◌then◌else◌, arith, Bool-cases, inl, inr,
}
use prun.Containers.IntSet
use prun.Containers.IntSet.{IntSet}
use prun.Containers.IntMap
use prun.Master.WorkerJob.{has_task, get_total_num_tasks, get_job_id}
use prun.Master.WorkerJob.Sums.{listed}
use prun.Master.Scheduler.{Scheduler}
use prun.Master.Scheduler.Planning.{
  can_add_task_to_worker, Plan, take_first, resched_loop, get_resched_job_for_worker, task_loop,
  is_eligible, leave_tasks, tasks_at, take_tasks, job_loop, get_job_for_worker,
}
use prun.Master.Scheduler.Listing.{
  is_waiting, set_at_tasks, set_or_nil, set_or_some, has_task-take_first, SameSets,
  resched_loop-has_or_lists, resched_loop-SameSets,
}

module _ (ip : Text) (cpu i u : ℕ) where
  -- Waiting, or planned
  abbrev has_or_waits : Plan → Bool
  has_or_waits p = is_waiting i u p.scheduler || has_task i u p.planned

  resched-has_or_waits :
      (p : Plan) → has_or_waits (get_resched_job_for_worker ip cpu p) ≡ has_or_waits p
  unfolding get_resched_job_for_worker is_waiting
  resched-has_or_waits p =
      let r = resched_loop ip cpu p.scheduler.need_reschedule p in
      rw (resched_loop-SameSets ip cpu i u p.scheduler.need_reschedule p)
        (ground (arith, resched_loop-has_or_lists ip cpu i u p.scheduler.need_reschedule p))

  task_loop-has_or_contains :
      (k : Option ℕ) (j : ℕ) (ts : IntSet) (p : Plan)
      → ((j == i && IntSet.contains u ts) || has_task i u p.planned) ≡ (
          (j == i && IntSet.contains u (task_loop ip cpu k j ts p).1)
          || has_task i u (task_loop ip cpu k j ts p).0.planned)
  unfolding task_loop IntSet.contains
  task_loop-has_or_contains k j [] p = refl
  task_loop-has_or_contains k j (t ∷ ts) p =
      elim (Bool-cases (
        leb cpu (get_total_num_tasks p.planned)
        || not (can_add_task_to_worker ip p.planned j p.scheduler))) [
          | inl e ↦ rw e refl
          | inr e ↦ rw e (
              ground (
                arith,
                has_task-take_first ip k j t i u p,
                task_loop-has_or_contains k j ts (take_first ip k j t p),
              ))
        ]

  -- The loop over the tasks of a job changes neither the list nor the sets.
  pub task_loop_rest :
      (k : Option ℕ) (j : ℕ) (ts : IntSet) (p : Plan)
      → ((task_loop ip cpu k j ts p).0.scheduler.need_reschedule ≡ p.scheduler.need_reschedule)
        × SameSets p (task_loop ip cpu k j ts p).0
  unfolding task_loop take_first
  task_loop_rest k j [] p = (refl, refl)
  task_loop_rest k j (t ∷ ts) p =
      elim (Bool-cases (
        leb cpu (get_total_num_tasks p.planned)
        || not (can_add_task_to_worker ip p.planned j p.scheduler))) [
          | inl e ↦ rw e (refl, refl)
          | inr e ↦ rw e (task_loop_rest k j ts (take_first ip k j t p))
        ]

  tasks_at-leave_tasks :
      (j : ℕ) (left : IntSet) (s : Scheduler)
      → IntMap.Ascending s.tasks_to_send
      → IntSet.contains u (tasks_at i (leave_tasks j left s))
        ≡ (if j == i then IntSet.contains u left else IntSet.contains u (tasks_at i s))
  unfolding IntSet.contains
  tasks_at-leave_tasks j [] s a =
      rw
        (
          set_at_tasks i s,
          set_at_tasks i (leave_tasks j [] s),
          IntMap.find-erase j i s.tasks_to_send a,
        )
        (set_or_nil u (j == i) (IntMap.find i s.tasks_to_send))
  tasks_at-leave_tasks j (t ∷ ts) s a =
      rw
        (
          set_at_tasks i s,
          set_at_tasks i (leave_tasks j (t ∷ ts) s),
          IntMap.find-put j i (t ∷ ts) s.tasks_to_send,
        )
        (set_or_some u (j == i) (t ∷ ts) (IntMap.find i s.tasks_to_send))

  pub leave_tasks_list :
      (j : ℕ) (left : IntSet) (s : Scheduler)
      → (leave_tasks j left s).need_reschedule ≡ s.need_reschedule
  leave_tasks_list j [] s = refl
  leave_tasks_list j (t ∷ ts) s = refl

  tasks_at_eq : (j : ℕ) (s : Scheduler) → (j == i) ≡ true → tasks_at i s ≡ tasks_at j s
  tasks_at_eq j s h = let e : i ≡ j = ground arith in rw e refl

  exchange :
      (l e c0 c h0 h c1 : Bool)
      → (e ≡ true → c1 ≡ c0)
      → ((e && c0) || h0) ≡ ((e && c) || h)
      → (l || (if e then c else c1) || h) ≡ (l || c1 || h0)
  exchange l e c0 c h0 h c1 f g = ground arith

  take_tasks-has_or_waits :
      (k : Option ℕ) (j : ℕ) (p : Plan)
      → IntMap.Ascending p.scheduler.tasks_to_send
      → has_or_waits (take_tasks ip cpu k j p) ≡ has_or_waits p
  unfolding take_tasks is_waiting
  take_tasks-has_or_waits k j p a =
      let r = task_loop ip cpu k j (tasks_at j p.scheduler) p in
      let (d, e) = task_loop_rest k j (tasks_at j p.scheduler) p in
      rw
        (
          leave_tasks_list j r.1 r.0.scheduler,
          tasks_at-leave_tasks j r.1 r.0.scheduler (rw e a),
          set_at_tasks i r.0.scheduler,
          d,
          e,
          sym (set_at_tasks i p.scheduler),
        )
        (exchange (listed i u p.scheduler.need_reschedule) (j == i)
          (IntSet.contains u (tasks_at j p.scheduler)) (IntSet.contains u r.1)
          (has_task i u p.planned) (has_task i u r.0.planned)
          (IntSet.contains u (tasks_at i p.scheduler)) (λ h. rw (tasks_at_eq j p.scheduler h) refl)
          (task_loop-has_or_contains k j (tasks_at j p.scheduler) p))

  job_loop-has_or_waits :
      (k : Option ℕ) (js : List ℕ) (p : Plan)
      → IntMap.Ascending p.scheduler.tasks_to_send
      → has_or_waits (job_loop ip cpu k js p) ≡ has_or_waits p
  unfolding job_loop
  job_loop-has_or_waits k [] p a = refl
  job_loop-has_or_waits k (j ∷ js) p a = elim (Bool-cases (is_eligible ip k j p)) [
    | inl e ↦ rw e (take_tasks-has_or_waits k j p a)
    | inr e ↦ rw e (job_loop-has_or_waits k js p a)
  ]

  leave_tasks-Ascending :
      (j : ℕ) (left : IntSet) (s : Scheduler)
      → IntMap.Ascending s.tasks_to_send
      → IntMap.Ascending (leave_tasks j left s).tasks_to_send
  leave_tasks-Ascending j [] s a = IntMap.erase-Ascending j s.tasks_to_send a
  leave_tasks-Ascending j (t ∷ ts) s a = IntMap.put-Ascending j (t ∷ ts) s.tasks_to_send a

  job_loop-Ascending :
      (k : Option ℕ) (js : List ℕ) (p : Plan)
      → IntMap.Ascending p.scheduler.tasks_to_send
      → IntMap.Ascending (job_loop ip cpu k js p).scheduler.tasks_to_send
  unfolding job_loop take_tasks
  job_loop-Ascending k [] p a = a
  job_loop-Ascending k (j ∷ js) p a =
      let r = task_loop ip cpu k j (tasks_at j p.scheduler) p in
      elim (Bool-cases (is_eligible ip k j p)) [
        | inl e ↦ rw e (
            leave_tasks-Ascending j r.1 r.0.scheduler
              (rw (task_loop_rest k j (tasks_at j p.scheduler) p).1 a))
        | inr e ↦ rw e (job_loop-Ascending k js p a)
      ]

  pub resched-Ascending :
      (p : Plan)
      → IntMap.Ascending p.scheduler.tasks_to_send
      → IntMap.Ascending (get_resched_job_for_worker ip cpu p).scheduler.tasks_to_send
  unfolding get_resched_job_for_worker
  resched-Ascending p a = rw (resched_loop-SameSets ip cpu i u p.scheduler.need_reschedule p) a

  -- The keys of the tasks to send stay in order.
  pub get_job_for_worker-Ascending :
      (p : Plan)
      → IntMap.Ascending p.scheduler.tasks_to_send
      → IntMap.Ascending (get_job_for_worker ip cpu p).scheduler.tasks_to_send
  unfolding get_job_for_worker
  get_job_for_worker-Ascending p a =
      let q = get_resched_job_for_worker ip cpu p in
      job_loop-Ascending (get_job_id q.planned) q.scheduler.jobs.order q (resched-Ascending p a)

  -- When the keys of the tasks to send are in order, as a map keeps them, a task waits or is
  -- planned after GetJobForWorker exactly if it did before: none is lost, none made up.
  pub get_job_for_worker-conserves :
      (p : Plan)
      → IntMap.Ascending p.scheduler.tasks_to_send
      → (is_waiting i u (get_job_for_worker ip cpu p).scheduler
          || has_task i u (get_job_for_worker ip cpu p).planned)
        ≡ (is_waiting i u p.scheduler || has_task i u p.planned)
  unfolding get_job_for_worker
  get_job_for_worker-conserves p a =
      let q = get_resched_job_for_worker ip cpu p in
      job_loop-has_or_waits (get_job_id q.planned) q.scheduler.jobs.order q (resched-Ascending p a)
      ∙ resched-has_or_waits p

-- ===== src/Master/Scheduler/Machine.antt =====
-- A simpler machine for the scheduler, which knows only the tasks that wait and those at each
-- worker; OnNewJob (master/scheduler.cpp) is a step of it.
use prun.Base.{
  ℕ, zero, suc, ◌≤◌, ◌≡◌, refl, sym, ap, ◌∙◌, Bool, true, false, not, ◌&&◌, ◌||◌, Option, some,
  Text, text_eq, ◌==◌, ltb, length, if◌then◌else◌, arith, Bool-cases, Option-cases, inl, inr,
}
use prun.Base.Int.{pos_part}
use prun.Containers.IntSet
use prun.Containers.IntSet.{IntSet}
use prun.Containers.IntMap
use prun.Master.WorkerJob.{has_task}
use prun.Master.WorkerJob.Sums.{listed}
use prun.Master.JobStore.{Queue}
use prun.Master.JobQueue.{pop_job}
use prun.Master.Scheduler.{Scheduler, job_at}
use prun.Master.Scheduler.Jobs.{add}
use prun.Master.Scheduler.Planning.{tasks_at, get_num_planned_exec}
use prun.Master.Scheduler.Sending.{
  insert_below, plan_job, plan_job_execution, can_take_new_job, on_new_job,
}
use prun.Master.Scheduler.Listing.{is_waiting, set_at, set_at_tasks}

-- The machine's state: which tasks wait, and which are at which worker
pub record TaskView : Type 0 where
  pub waiting : ℕ → ℕ → Bool
  pub running : Text → ℕ → ℕ → Bool

unfoldable pub view : Scheduler → TaskView
unfolding is_waiting
view s = record {
  waiting = λ j t. is_waiting j t s;
  running = λ ip j t. has_task j t (job_at ip s);
}

-- A step gives waiting tasks of one job to one worker, which then do not wait any more, lets the first tasks of a job wait, or does
-- nothing.
pub data Step (a b : TaskView) : Type 0 where
  send :
      (ip : Text) (j : ℕ) (ts : IntSet)
      → 1 ≤ length ts
      → ((i u : ℕ) → (j == i && IntSet.contains u ts) ≡ true → a.waiting i u ≡ true)
      → ((i u : ℕ) → b.waiting i u ≡ (not (j == i && IntSet.contains u ts) && a.waiting i u))
      → ((q : Text) (i u : ℕ)
          → b.running q i u ≡ ((text_eq ip q && j == i && IntSet.contains u ts) || a.running q i u))
      → Step a b
  plan :
      (j n : ℕ)
      → ((i u : ℕ) → b.waiting i u ≡ ((j == i && ltb u n) || a.waiting i u))
      → b.running ≡ a.running
      → Step a b
  rest : ((i u : ℕ) → b.waiting i u ≡ a.waiting i u) → b.running ≡ a.running → Step a b

contains-insert_below :
    (u n : ℕ) (q : IntSet) → IntSet.contains u (insert_below n q) ≡ (ltb u n || IntSet.contains u q)
unfolding insert_below
contains-insert_below u zero q = ground arith
contains-insert_below u (suc n) q =
    ground (arith, IntSet.contains-insert n u (insert_below n q), contains-insert_below u n q)

module _ (i u : ℕ) where
  waits_more :
      (l b : Bool) (n : ℕ) (o k : Option IntSet)
      → (b ≡ true → k ≡ o)
      → (l || IntSet.contains u (set_at (if b then some (insert_below n (set_at k)) else o)))
        ≡ ((b && ltb u n) || (l || IntSet.contains u (set_at o)))
  waits_more l true n o k h = rw (h refl) (ground (arith, contains-insert_below u n (set_at o)))
  waits_more l false n o k h = refl

  same_key :
      (j : ℕ) (s : Scheduler)
      → (j == i) ≡ true
      → IntMap.find j s.tasks_to_send ≡ IntMap.find i s.tasks_to_send
  same_key j s h = let e : j ≡ i = ground arith in rw e refl

  is_waiting-plan_job :
      (j : ℕ) (s : Scheduler)
      → is_waiting i u (plan_job j s)
        ≡ ((j == i && ltb u (pos_part (get_num_planned_exec (s.spec_of j) s))) || is_waiting i u s)
  unfolding is_waiting plan_job add
  is_waiting-plan_job j s =
      let n = pos_part (get_num_planned_exec (s.spec_of j) s) in
      rw
        (
          set_at_tasks i (plan_job j s),
          IntMap.find-put j i (insert_below n (tasks_at j s)) s.tasks_to_send,
        )
        (waits_more (listed i u s.need_reschedule) (j == i) n (IntMap.find i s.tasks_to_send)
            (IntMap.find j s.tasks_to_send) (λ h. same_key j s h)
          ∙ ap (λ q. (j == i && ltb u n) || (listed i u s.need_reschedule || IntSet.contains u q))
              (sym (set_at_tasks i s)))

plan_job-Step :
    (j : ℕ) (q : Queue) (s : Scheduler) → Step (view s) (view (plan_job j (record s { queue = q })))
unfolding view plan_job add is_waiting
plan_job-Step j q s =
    plan j (pos_part (get_num_planned_exec (s.spec_of j) s))
      (λ i u. is_waiting-plan_job i u j (record s { queue = q })) refl

plan_job_execution-Step : (s : Scheduler) → Step (view s) (view (plan_job_execution s))
unfolding plan_job_execution view
plan_job_execution-Step s = elim (Option-cases (pop_job s.queue)) [
  | inl e ↦ rw (e, plan_job_execution) (rest (λ i u. refl) refl)
  | inr ((j, q), e) ↦ rw (e, plan_job_execution) (plan_job-Step j q s)
]

-- OnNewJob lets the first tasks of a job wait, or does nothing.
pub on_new_job-Step : (s : Scheduler) → Step (view s) (view (on_new_job s))
unfolding on_new_job view
on_new_job-Step s = elim (Bool-cases (can_take_new_job s)) [
  | inl e ↦ rw (e, on_new_job) (plan_job_execution-Step s)
  | inr e ↦ rw (e, on_new_job) (rest (λ i u. refl) refl)
]

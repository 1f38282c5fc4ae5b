-- ===== src/Master/Scheduler/Bounds.antt =====
-- GetTaskToSend (master/scheduler.cpp): how its loop over the nodes ends, and that no worker gets
-- more tasks than it has free CPUs.
use prun.Base.{
  ℕ, ◌+◌, ◌≤◌, ◌≡◌, refl, Bool, true, false, if◌then◌else◌, Option, none, some, List, [], ◌∷◌, Text,
  text_eq, leb, arith, Bool-cases, Option-cases, inl, inr,
}
use prun.Base.Int.{ℤ, pos, ltb_ℤ, ◌+ℤ◌, ◌-ℤ◌, ◌≤ℤ◌, pos_part, +ℤ_parts, -ℤ_parts}
use prun.Containers.IntSet.{IntSet}
use prun.Master.WorkerJob.{WorkerJob, plus, get_total_num_tasks, get_job_id}
use prun.Master.WorkerJob.Tasks.{IsValid}
use prun.Master.WorkerJob.Sums.{plus-IsValid}
use prun.Master.WorkerJob.Counts.{total-plus}
use prun.Master.Scheduler.{Worker, Scheduler, job_at, get_num_free_cpu, put_at, set_job, alloc_cpu}
use prun.Master.JobQueue.{pop_job}
use prun.Master.Scheduler.Jobs.{add}
use prun.Master.Scheduler.Planning.{Plan}
use prun.Master.Scheduler.Sending.{
  give, is_passed, plan_for, node_loop, get_task_to_send, on_new_job, plan_job_execution, plan_job,
  can_take_new_job, count_more,
}
use prun.Master.Scheduler.Fitting.{total_nil, Holds-total}
use prun.Master.Scheduler.Limits.{Planned}
use prun.Master.Scheduler.Limits.{Fits, nothing, tasks}
use prun.Master.Scheduler.Choosing.{get_job_for_worker-Fits}
use prun.Master.Scheduler.Searching.{Searched, get_job_for_worker-Searched}

-- The free CPUs of a node, as the search gets them
abbrev pub cpus : Text → Plan → ℕ
cpus ip p = pos_part (get_num_free_cpu ip p.scheduler)

plan_for-Fits :
    (ip : Text) (p : Plan)
    → p.planned.jobs ≡ []
    → Fits ip (cpus ip p) (plan_for ip p).planned (plan_for ip p).scheduler
plan_for-Fits ip p e = get_job_for_worker-Fits ip (cpus ip p) (record p { found = none }) e refl

-- The loop gives no tasks, or those planned for a node that it does not pass over; `P` is what holds
-- before each search.
pub data Ended (P : Plan → Type 0) : Plan × Option Text → Type 0 where
  nobody : (q : Plan) → P q → q.planned.jobs ≡ [] → Ended P (q, none)
  somebody :
      (ip : Text) (p : Plan) (j : ℕ) (ts : IntSet)
      → P p
      → p.planned.jobs ≡ []
      → is_passed ip p.scheduler ≡ false
      → Planned ip (cpus ip p) j ts (plan_for ip p).planned (plan_for ip p).scheduler
      → Ended P (
        record (plan_for ip p) {
          scheduler = give ip (plan_for ip p).planned (plan_for ip p).scheduler;
        },
        some ip,
      )

module _ (P : Plan → Type 0)
    (search : (ip : Text) (p : Plan)
      → P p
      → p.planned.jobs ≡ []
      → (plan_for ip p).planned.jobs ≡ []
      → P (plan_for ip p)) where
  pub node_loop-Ended :
      (ips : List Text) (p : Plan) → P p → p.planned.jobs ≡ [] → Ended P (node_loop ips p)
  unfolding node_loop
  node_loop-Ended [] p h e = nobody p h e
  node_loop-Ended (ip ∷ ips) p h e = elim (Bool-cases (is_passed ip p.scheduler)) [
    | inl f ↦ rw f (node_loop-Ended ips p h e)
    | inr f ↦ elim (plan_for-Fits ip p e) [
      | nothing d ↦
          rw (f, total_nil (plan_for ip p).planned d)
            (node_loop-Ended ips (plan_for ip p) (search ip p h e d) d)
      | tasks j ts u ↦
          let some_tasks : leb 1 (get_total_num_tasks (plan_for ip p).planned) ≡ true =
            ground (arith, Holds-total j ts (plan_for ip p).planned u.jobs, u.not_empty) in
          rw (f, some_tasks) (somebody ip p j ts h e f u)
    ]
  ]

-- No worker has more tasks than busy CPUs, and more of these than CPUs; its tasks are as maps and sets
-- keep them.
abbrev pub Busy : Worker → ℤ → Type 0
Busy w busy = IsValid w.job × (pos (get_total_num_tasks w.job) ≤ℤ busy) × (busy ≤ℤ w.num_cpu)

unfoldable pub IsBounded : Scheduler → Type 0
IsBounded s = (ip : Text) → Busy (s.worker_of ip) (s.busy ip)

if-Busy :
    (c : Bool) (x y : Worker) (m n : ℤ)
    → Busy x m
    → Busy y n
    → Busy (if c then x else y) (if c then m else n)
if-Busy true x y m n h k = h
if-Busy false x y m n h k = k

-- The nodes, their workers and the workers' tasks are the same.
Searched-IsBounded : (p q : Plan) → Searched p q → IsBounded p.scheduler → IsBounded q.scheduler
unfolding IsBounded
Searched-IsBounded p q h b ip = rw (h.0, h.1) (b ip)

more_busy :
    (a c : ℤ) (n : ℕ) → n ≤ pos_part (c -ℤ a) → ltb_ℤ (pos 0) (c -ℤ a) ≡ true → a +ℤ pos n ≤ℤ c
more_busy a c n l h = ground (arith, +ℤ_parts a (pos n), -ℤ_parts c a)

more_tasks : (k m : ℕ) (a : ℤ) (n : ℕ) → pos k ≤ℤ a → m ≤ k + n → pos m ≤ℤ a +ℤ pos n
more_tasks k m a n l h = ground (arith, +ℤ_parts a (pos n))

counted_fields :
    (o : Option ℕ) (n : ℕ) (s : Scheduler)
    → ((count_more o n s).worker_of ≡ s.worker_of)
      × ((count_more o n s).busy ≡ s.busy)
      × ((count_more o n s).tasks_to_send ≡ s.tasks_to_send)
      × ((count_more o n s).need_reschedule ≡ s.need_reschedule)
counted_fields none n s = (refl, refl, refl, refl)
counted_fields (some j) n s = (refl, refl, refl, refl)

-- What a worker gets changes its tasks and its busy CPUs.
pub give_fields :
    (ip : Text) (w : WorkerJob) (s : Scheduler)
    → ((give ip w s).worker_of
        ≡ put_at ip (record (s.worker_of ip) { job = plus (job_at ip s) w }) s.worker_of)
      × ((give ip w s).busy ≡ put_at ip (s.busy ip +ℤ pos (get_total_num_tasks w)) s.busy)
      × ((give ip w s).tasks_to_send ≡ s.tasks_to_send)
      × ((give ip w s).need_reschedule ≡ s.need_reschedule)
unfolding give
give_fields ip w s =
    counted_fields (get_job_id w) (get_total_num_tasks w)
      (alloc_cpu ip (pos (get_total_num_tasks w)) (set_job ip (plus (job_at ip s) w) s))

give-IsBounded :
    (ip : Text) (w : WorkerJob) (s : Scheduler)
    → get_total_num_tasks w ≤ pos_part (get_num_free_cpu ip s)
    → ltb_ℤ (pos 0) (get_num_free_cpu ip s) ≡ true
    → IsBounded s
    → IsBounded (give ip w s)
unfolding IsBounded put_at
give-IsBounded ip w s l h b i =
    let (d, e, f, g) = give_fields ip w s in
    rw (d, e)
      (let n = get_total_num_tasks w in
        let (v, t, u) = b ip in
        if-Busy (text_eq ip i) (record (s.worker_of ip) { job = plus (job_at ip s) w })
          (s.worker_of i) (s.busy ip +ℤ pos n) (s.busy i)
          (
            plus-IsValid (job_at ip s) w v,
            more_tasks (get_total_num_tasks (job_at ip s))
                (get_total_num_tasks (plus (job_at ip s) w)) (s.busy ip) n t
                (total-plus (job_at ip s) w v),
            more_busy (s.busy ip) (s.worker_of ip).num_cpu n l h,
          )
          (b i))

-- The plan of a job changes no worker.
plan_job_execution_fields :
    (s : Scheduler)
    → ((plan_job_execution s).worker_of ≡ s.worker_of) × ((plan_job_execution s).busy ≡ s.busy)
unfolding plan_job_execution plan_job add
plan_job_execution_fields s = elim (Option-cases (pop_job s.queue)) [
  | inl e ↦ rw (e, plan_job_execution) (refl, refl)
  | inr ((j, q), e) ↦ rw (e, plan_job_execution) (refl, refl)
]

pub on_new_job_fields :
    (s : Scheduler) → ((on_new_job s).worker_of ≡ s.worker_of) × ((on_new_job s).busy ≡ s.busy)
unfolding on_new_job
on_new_job_fields s = elim (Bool-cases (can_take_new_job s)) [
  | inl e ↦ rw (e, on_new_job) (plan_job_execution_fields s)
  | inr e ↦ rw (e, on_new_job) (refl, refl)
]

abbrev BoundedPlan : Plan → Type 0
BoundedPlan p = IsBounded p.scheduler

search-BoundedPlan : (ip : Text) (p : Plan) → BoundedPlan p → BoundedPlan (plan_for ip p)
search-BoundedPlan ip p b =
    Searched-IsBounded p (plan_for ip p)
      (get_job_for_worker-Searched ip (cpus ip p) (record p { found = none })) b

not_passed :
    (ip : Text) (s : Scheduler)
    → is_passed ip s ≡ false
    → ltb_ℤ (pos 0) (get_num_free_cpu ip s) ≡ true
unfolding is_passed
not_passed ip s h = ground arith

-- The end of GetTaskToSend
abbrev pub end_of : Plan × Option Text → Plan × Option Text
end_of (q, none) = (record q { scheduler = on_new_job q.scheduler }, none)
end_of (q, some ip) = (q, some ip)

end_of-IsBounded : (r : Plan × Option Text) → Ended BoundedPlan r → IsBounded (end_of r).0.scheduler
unfolding IsBounded
end_of-IsBounded r (nobody q b e) =
    rw ((on_new_job_fields q.scheduler).0, (on_new_job_fields q.scheduler).1) b
end_of-IsBounded r (somebody ip p j ts b e f u) =
    let q = plan_for ip p in
    let h = get_job_for_worker-Searched ip (cpus ip p) (record p { found = none }) in
    give-IsBounded ip q.planned q.scheduler
      (rw (h.0, h.1, Holds-total j ts q.planned u.jobs) u.within)
      (rw (h.0, h.1) (not_passed ip p.scheduler f)) (search-BoundedPlan ip p b)

-- If no worker has more tasks than busy CPUs, nor more of these than CPUs, and the workers' tasks are
-- as maps and sets keep them, the same holds when GetTaskToSend, called without planned tasks, has
-- given tasks to a worker or planned the next job.
pub get_task_to_send-IsBounded :
    (w : WorkerJob) (job : Option ℕ) (s : Scheduler)
    → w.jobs ≡ []
    → IsBounded s
    → IsBounded (get_task_to_send w job s).0.scheduler
unfolding get_task_to_send
get_task_to_send-IsBounded w job s e b =
    let p : Plan = record { planned = w; found = none; job = job; scheduler = s } in
    end_of-IsBounded (node_loop s.priority p)
      (node_loop-Ended BoundedPlan (λ ip q h d f. search-BoundedPlan ip q h) s.priority p b e)

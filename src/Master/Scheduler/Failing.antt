-- ===== src/Master/Scheduler/Failing.antt =====
-- The busy CPUs when a task ends with an error (OnTaskCompletion of master/scheduler.cpp).
use prun.Base.{
  ℕ, ◌≡◌, refl, sym, ap, ◌∙◌, true, false, ◌&&◌, Text, text_eq, text_eq_iff, text_eq_refl, ◌==◌,
  not, if◌then◌else◌, arith, Bool-cases, Option-cases, inl, inr,
}
use prun.Base.Int.{ℤ, pos, ◌+ℤ◌, ◌-ℤ◌, +ℤ_parts, -ℤ_parts, eq_of_parts}
use prun.Containers.IntSet
use prun.Containers.IntSet.{IntSet}
use prun.Containers.IntMap
use prun.Containers.TextSet
use prun.Master.WorkerJob.{
  WorkerTask, WorkerJob, has_task, delete_task, add_task, new_job, get_jobs, get_num_tasks,
  get_total_num_tasks,
}
use prun.Master.WorkerJob.Tasks.{IsValid, has_task-delete_task}
use prun.Master.JobStore.{is_in}
use prun.Master.FailedWorkers.{add}
use prun.Master.Scheduler.{
  Scheduler, Worker, failed_nodes_limit, put_at, update_node_priority, job_at, set_job, free_cpu,
  notify, notify_all,
}
use prun.Master.Scheduler.Stopping.{
  reschedule_job, reschedule_each, reschedule_one, reaches_failed, count_less, stop_workers,
}
use prun.Master.Scheduler.Completion.{on_error, release_cpu, fail_at, knows}
use prun.Master.Scheduler.Accounting.{
  ShortBy, IsAccounted, same-ShortBy, freed-ShortBy, keeps-IsAccounted, reschedule_job-ShortBy,
}
use prun.Master.Scheduler.Forgetting.{AllValid, has_task-stop_at_each}
use prun.Master.Scheduler.Frames.{
  put_at_same, put_at_other, put_at_if, job_at-set_job, remove_job-Keeps,
  decrement_job_execution-Keeps,
}
use prun.Master.Scheduler.Completing.{one_less}

-- The state in which OnTaskCompletion with an error reschedules the task
abbrev failed_at : WorkerTask → Text → Scheduler → Scheduler
failed_at t ip s = release_cpu ip 1 (fail_at t.job_id ip s)

abbrev rescheduled : WorkerTask → Text → Scheduler → Scheduler
rescheduled t ip s = (reschedule_job (add_task t.job_id t.task_id new_job) (failed_at t ip s)).0

less_one : (b : ℤ) (n : ℕ) → b ≡ pos n → (b -ℤ pos 1) +ℤ pos 1 ≡ pos n
less_one b n h =
    eq_of_parts ((b -ℤ pos 1) +ℤ pos 1) (pos n)
      (ground (arith, h, -ℤ_parts b (pos 1), +ℤ_parts (b -ℤ pos 1) (pos 1)))

-- The CPU is freed before the task is deleted.
rescheduled-ShortBy :
    (t : WorkerTask) (ip : Text) (s : Scheduler)
    → s.busy ip ≡ pos (get_total_num_tasks (job_at ip s))
    → ShortBy 1 ip (rescheduled t ip s)
unfolding update_node_priority ShortBy
rescheduled-ShortBy t ip s h =
    reschedule_job-ShortBy 1 ip (add_task t.job_id t.task_id new_job) (failed_at t ip s) (
      rw (put_at_same ip ip (s.busy ip -ℤ pos 1) s.busy (text_eq_refl ip))
        (less_one (s.busy ip) (get_total_num_tasks (job_at ip s)) h))

abbrev the_task : WorkerTask → WorkerJob
the_task t = add_task t.job_id t.task_id new_job

rescheduled_one :
    (t : WorkerTask) (ip : Text) (s : Scheduler)
    → rescheduled t ip s ≡ (reschedule_one (the_task t) t.job_id (failed_at t ip s)).0
unfolding reschedule_job reschedule_each get_jobs add_task IntMap.put
rescheduled_one t ip s = refl

-- While the limit of failed workers is not reached, no worker changes.
pub kept_workers :
    (w : WorkerJob) (j : ℕ) (s : Scheduler)
    → reaches_failed j s ≡ false
    → ((reschedule_one w j s).0.worker_of ≡ s.worker_of)
      × ((reschedule_one w j s).0.busy ≡ s.busy)
      × ((reschedule_one w j s).0.nodes ≡ s.nodes)
unfolding reschedule_one reaches_failed
kept_workers w j s f =
    let n = get_num_tasks j w in
    let s' = count_less j n s in
    elim (Bool-cases (is_in j s.jobs.order)) [
      | inl e ↦ elim (Bool-cases (s.spec_of j).no_reschedule) [
        | inl g ↦
            let d = decrement_job_execution-Keeps j (pos n) false s' in
            rw (e, f, g, reschedule_one) (d.0, d.1, d.2)
        | inr g ↦ rw (e, f, g, reschedule_one) (refl, refl, refl)
      ]
      | inr e ↦ rw (e, reschedule_one) (refl, refl, refl)
    ]

-- The state after an error that counts
abbrev after_error : WorkerTask → Text → Scheduler → Scheduler → Scheduler
after_error t ip s r =
    notify notify_all (set_job ip (delete_task t.job_id t.task_id (job_at ip r)).0 r)

after_error-IsAccounted :
    (t : WorkerTask) (ip : Text) (s : Scheduler)
    → IsValid (job_at ip s)
    → (delete_task t.job_id t.task_id (job_at ip s)).1 ≡ true
    → reaches_failed t.job_id (failed_at t ip s) ≡ false
    → IsAccounted s
    → IsAccounted (after_error t ip s (reschedule_one (the_task t) t.job_id (failed_at t ip s)).0)
unfolding update_node_priority ShortBy
after_error-IsAccounted t ip s v had f h =
    let w = (delete_task t.job_id t.task_id (job_at ip s)).0 in
    let r = (reschedule_one (the_task t) t.job_id (failed_at t ip s)).0 in
    let (a, b, c) = kept_workers (the_task t) t.job_id (failed_at t ip s) f in
    keeps-IsAccounted s (after_error t ip s r) c
      (λ q k.
        same-ShortBy 0 q (set_job ip w (free_cpu ip (pos 1) s)) (after_error t ip s r)
          (ap
            (λ g.
              put_at ip (record (g ip) { job = (delete_task t.job_id t.task_id (g ip).job).0 }) g)
            a)
          b (freed-ShortBy 0 1 ip q w s (one_less t.job_id t.task_id (job_at ip s) v had) k))
      h

-- If the worker has the task, its tasks are as maps and sets keep them, with this failure the
-- workers that failed the job are not too many, and at each node the busy CPUs are the worker's
-- tasks, then the same holds after OnTaskCompletion with an error.
pub on_error-IsAccounted :
    (t : WorkerTask) (ip : Text) (s : Scheduler)
    → IsValid (job_at ip s)
    → has_task t.job_id t.task_id (job_at ip s) ≡ true
    → reaches_failed t.job_id (fail_at t.job_id ip s) ≡ false
    → IsAccounted s
    → IsAccounted (on_error t ip s)
unfolding on_error reaches_failed update_node_priority
on_error-IsAccounted t ip s v had f h =
    elim (Bool-cases (knows t.job_id ip s && (add t.job_id ip s.failed).1)) [
      | inl e ↦
          rw (e, on_error, rescheduled_one t ip s)
            (after_error-IsAccounted t ip s v
              ((has_task-delete_task t.job_id t.task_id t.job_id t.task_id (job_at ip s) v).0 ∙ had)
              f h)
      | inr e ↦ rw (e, on_error) h
    ]

-- If the worker's tasks are as maps and sets keep them, the error counts as the worker's first
-- failure of the job, and with it the workers that failed the job are not too many, then after
-- OnTaskCompletion with an error just the CPU of the task is free again at its node and no other,
-- and just this task is gone from its worker, and no other from any worker.
pub on_error-frees :
    (t : WorkerTask) (ip : Text) (s : Scheduler)
    → IsValid (job_at ip s)
    → knows t.job_id ip s ≡ true
    → (add t.job_id ip s.failed).1 ≡ true
    → reaches_failed t.job_id (fail_at t.job_id ip s) ≡ false
    → ((q : Text)
        → (on_error t ip s).busy q ≡ (if text_eq ip q then s.busy ip -ℤ pos 1 else s.busy q))
      × ((q : Text) (j u : ℕ)
          → has_task j u (job_at q (on_error t ip s))
            ≡ (not (text_eq ip q && t.job_id == j && t.task_id == u) && has_task j u (job_at q s)))
unfolding on_error reaches_failed update_node_priority
on_error-frees t ip s v known new f =
    let r = (reschedule_one (the_task t) t.job_id (failed_at t ip s)).0 in
    let (a, b, c) = kept_workers (the_task t) t.job_id (failed_at t ip s) f in
    rw (known, new, on_error, rescheduled_one t ip s)
      (
        λ q. ap (λ (g : Text → ℤ). g q) b ∙ put_at_if ip q (s.busy ip -ℤ pos 1) s.busy,
        λ q j u.
            let changed : (Text → Worker) → Worker = λ g.
              put_at ip (record (g ip) { job = (delete_task t.job_id t.task_id (g ip).job).0 }) g
                q in
            ap (λ g. has_task j u (changed g).job) a ∙ deleted_at t ip q j u s v,
      )
  where
    deleted_at :
        (t : WorkerTask) (ip q : Text) (j u : ℕ) (s : Scheduler)
        → IsValid (job_at ip s)
        → has_task j u
            (put_at ip
              (record (s.worker_of ip) { job = (delete_task t.job_id t.task_id (job_at ip s)).0 })
              s.worker_of
              q).job
          ≡ (not (text_eq ip q && t.job_id == j && t.task_id == u) && has_task j u (job_at q s))
    deleted_at t ip q j u s v =
        let w = record (s.worker_of ip) {
          job = (delete_task t.job_id t.task_id (job_at ip s)).0;
        } in
        let d = (has_task-delete_task t.job_id t.task_id j u (job_at ip s) v).1 in
        elim (Bool-cases (text_eq ip q)) [
          | inl e ↦
              let i : ip ≡ q = (text_eq_iff ip q).0 e in
              ap (λ (x : Worker). has_task j u x.job) (put_at_same ip q w s.worker_of e)
              ∙ d
              ∙ rw (e, i) (ground arith)
          | inr e ↦
              ap (λ (x : Worker). has_task j u x.job) (put_at_other ip q w s.worker_of e)
              ∙ rw e refl
        ]

-- No task of a stopped job is at a node.
stopped_one :
    (w : WorkerJob) (j : ℕ) (ip : Text) (s : Scheduler)
    → is_in j s.jobs.order ≡ true
    → reaches_failed j s ≡ true
    → TextSet.contains ip s.nodes ≡ true
    → AllValid s
    → (u : ℕ) → has_task j u (job_at ip (reschedule_one w j s).0) ≡ false
unfolding reschedule_one reaches_failed stop_workers AllValid
stopped_one w j ip s e f m v u =
    let s' = count_less j (get_num_tasks j w) s in
    rw (e, f, reschedule_one)
      (ap (λ g. has_task j u (g ip).job)
          (remove_job-Keeps j false failed_nodes_limit (stop_workers j s')).0
        ∙ ground (arith, has_task-stop_at_each j j u ip s.nodes s' v, m))

delete_task_absent : (j t : ℕ) (w : WorkerJob) → has_task j t w ≡ false → (delete_task j t w).0 ≡ w
unfolding has_task delete_task
delete_task_absent j t w h = elim (Option-cases (IntMap.find j w.jobs)) [
  | inl e ↦ rw (e, delete_task) refl
  | inr (q, e) ↦
      let c : IntSet.contains t q ≡ false = sym (rw (e, has_task) refl) ∙ h in
      rw (e, delete_task, c) refl
]

-- If at each node the busy CPUs are the worker's tasks, the workers' tasks are as maps and sets
-- keep them, the error counts as the worker's first failure of the job, and with it the workers
-- that failed the job are too many, then after OnTaskCompletion the node has one busy CPU fewer than
-- its worker has tasks: the CPU of the failed task is freed twice.
pub on_error-ShortBy :
    (t : WorkerTask) (ip : Text) (s : Scheduler)
    → knows t.job_id ip s ≡ true
    → (add t.job_id ip s.failed).1 ≡ true
    → reaches_failed t.job_id (fail_at t.job_id ip s) ≡ true
    → AllValid s
    → IsAccounted s
    → ShortBy 1 ip (on_error t ip s)
unfolding on_error reaches_failed update_node_priority AllValid IsAccounted ShortBy
on_error-ShortBy t ip s k new f v h =
    let r = (reschedule_one (the_task t) t.job_id (failed_at t ip s)).0 in
    let gone =
      stopped_one (the_task t) t.job_id ip (failed_at t ip s) (ground arith) f (ground arith) v
        t.task_id in
    rw
      (
        k,
        new,
        on_error,
        rescheduled_one t ip s,
        job_at-set_job ip ip (delete_task t.job_id t.task_id (job_at ip r)).0 r,
        text_eq_refl ip,
        delete_task_absent t.job_id t.task_id (job_at ip r) gone,
      )
      (rw⁻¹ (rescheduled_one t ip s) (rescheduled-ShortBy t ip s (h ip (ground arith))))

-- ===== src/Master/Scheduler/Accounting.antt =====
-- The busy CPUs of the scheduler's nodes (master/scheduler.cpp, master/node_state.h) and the tasks
-- of their workers.
use prun.Base.{
  ℕ, ◌+◌, ◌≡◌, ◌∙◌, Bool, true, false, List, [], ◌∷◌, Text, text_eq, text_eq_iff, arith, Bool-cases,
  inl, inr, ◌↔◌,
}
use prun.Base.Int.{ℤ, pos, ◌+ℤ◌, ◌-ℤ◌, +ℤ_parts, -ℤ_parts, eq_of_parts}
use prun.Containers.IntSet.{IntSet}
use prun.Containers.TextSet
use prun.Master.WorkerJob.{
  WorkerJob, has_job, delete_job, get_jobs, get_num_tasks, get_total_num_tasks,
}
use prun.Master.WorkerJob.Counts.{get_total_num_tasks-delete_job}
use prun.Master.JobStore.{is_in}
use prun.Master.Scheduler.{
  Scheduler, Status, notify, notify_all, timeout, failed_nodes_limit, job_at, put_at, set_job,
  free_cpu,
}
use prun.Master.Scheduler.Jobs.{remove_job, decrement_job_execution}
use prun.Master.Scheduler.Stopping.{
  stop_at, stop_at_each, stop_workers, stop_job, reschedule_job, reschedule_each, reschedule_one,
  reaches_failed, count_less,
}
use prun.Master.Scheduler.Forgetting.{stop_at_each-SameTasks}
use prun.Master.Scheduler.Frames.{
  put_at_same, put_at_other, job_at-set_job, remove_job-Keeps, decrement_job_execution-Keeps,
}

-- The node has `k` busy CPUs fewer than its worker has tasks.
unfoldable pub ShortBy : ℕ → Text → Scheduler → Type 0
ShortBy k ip s = s.busy ip +ℤ pos k ≡ pos (get_total_num_tasks (job_at ip s))

-- At each node the busy CPUs are the worker's tasks.
unfoldable pub IsAccounted : Scheduler → Type 0
IsAccounted s =
    (ip : Text)
    → TextSet.contains ip s.nodes ≡ true
    → s.busy ip ≡ pos (get_total_num_tasks (job_at ip s))

-- Only the nodes and the workers' tasks count.
pub same-ShortBy :
    (k : ℕ) (ip : Text) (s r : Scheduler)
    → r.worker_of ≡ s.worker_of
    → r.busy ≡ s.busy
    → ShortBy k ip s
    → ShortBy k ip r
unfolding ShortBy
same-ShortBy k ip s r e f h = rw (e, f) h

less_and_fewer :
    (k n : ℕ) (b : ℤ) (t t' : ℕ) → t ≡ t' + n → b +ℤ pos k ≡ pos t → (b -ℤ pos n) +ℤ pos k ≡ pos t'
less_and_fewer k n b t t' e h =
    eq_of_parts ((b -ℤ pos n) +ℤ pos k) (pos t')
      (ground (arith, +ℤ_parts b (pos k), -ℤ_parts b (pos n), +ℤ_parts (b -ℤ pos n) (pos k)))

-- A change of a worker's tasks and of the busy CPUs of its node
pub changed-ShortBy :
    (k : ℕ) (ip q : Text) (w : WorkerJob) (b : ℤ) (s : Scheduler)
    → (ip ≡ q → b +ℤ pos k ≡ pos (get_total_num_tasks w))
    → ShortBy k q s
    → ShortBy k q (set_job ip w (record s { busy = put_at ip b s.busy }))
unfolding ShortBy
changed-ShortBy k ip q w b s f h =
    let r = record s { busy = put_at ip b s.busy } in
    elim (Bool-cases (text_eq ip q)) [
      | inl c ↦
          rw (put_at_same ip q b s.busy c, job_at-set_job ip q w r, c) (f ((text_eq_iff ip q).0 c))
      | inr c ↦ rw (put_at_other ip q b s.busy c, job_at-set_job ip q w r, c) h
    ]

-- A worker loses `n` tasks, and as many CPUs are freed.
pub freed-ShortBy :
    (k n : ℕ) (ip q : Text) (w : WorkerJob) (s : Scheduler)
    → get_total_num_tasks (job_at ip s) ≡ get_total_num_tasks w + n
    → ShortBy k q s
    → ShortBy k q (set_job ip w (free_cpu ip (pos n) s))
unfolding ShortBy
freed-ShortBy k n ip q w s e h =
    changed-ShortBy k ip q w (s.busy ip -ℤ pos n) s
      (λ f.
        less_and_fewer k n (s.busy ip) (get_total_num_tasks (job_at ip s)) (get_total_num_tasks w) e
          (rw f h))
      h

stop_at-ShortBy :
    (k j : ℕ) (ip q : Text) (s : Scheduler) → ShortBy k q s → ShortBy k q (stop_at j ip s)
unfolding stop_at ShortBy
stop_at-ShortBy k j ip q s h = elim (Bool-cases (has_job j (job_at ip s))) [
  | inl e ↦
      rw (e, stop_at)
        (freed-ShortBy k (get_num_tasks j (job_at ip s)) ip q (delete_job j (job_at ip s)).0 s
          (get_total_num_tasks-delete_job j (job_at ip s)) h)
  | inr e ↦ rw (e, stop_at) h
]

stop_at_each-ShortBy :
    (k j : ℕ) (q : Text) (ips : List Text) (s : Scheduler)
    → ShortBy k q s
    → ShortBy k q (stop_at_each j ips s)
unfolding stop_at_each
stop_at_each-ShortBy k j q [] s h = h
stop_at_each-ShortBy k j q (ip ∷ ips) s h =
    stop_at_each-ShortBy k j q ips (stop_at j ip s) (stop_at-ShortBy k j ip q s h)

-- Stopping and removing a job frees the CPUs of its tasks and no others.
stopped-ShortBy :
    (k j : ℕ) (q : Text) (ok : Bool) (st : Status) (s : Scheduler)
    → ShortBy k q s
    → ShortBy k q (remove_job j ok st (stop_workers j s))
unfolding stop_workers ShortBy
stopped-ShortBy k j q ok st s h =
    let r = stop_workers j s in
    let (a, b, c, d, e, f) = remove_job-Keeps j ok st r in
    same-ShortBy k q r (remove_job j ok st r) a b (stop_at_each-ShortBy k j q s.nodes s h)

-- The body of the loop of RescheduleJob frees only the CPUs of tasks that it stops.
reschedule_one-ShortBy :
    (k j : ℕ) (q : Text) (w : WorkerJob) (s : Scheduler)
    → ShortBy k q s
    → ShortBy k q (reschedule_one w j s).0
unfolding reschedule_one ShortBy
reschedule_one-ShortBy k j q w s h =
    let n = get_num_tasks j w in
    let s' = count_less j n s in
    elim (Bool-cases (is_in j s.jobs.order)) [
      | inl e ↦ elim (Bool-cases (reaches_failed j s')) [
        | inl f ↦ rw (e, f, reschedule_one) (stopped-ShortBy k j q false failed_nodes_limit s' h)
        | inr f ↦ elim (Bool-cases (s.spec_of j).no_reschedule) [
          | inl g ↦
              let d = decrement_job_execution-Keeps j (pos n) false s' in
              rw (e, f, g, reschedule_one)
                (same-ShortBy k q s' (decrement_job_execution j (pos n) false s') d.0 d.1 h)
          | inr g ↦ rw (e, f, g, reschedule_one) h
        ]
      ]
      | inr e ↦ rw (e, reschedule_one) h
    ]

reschedule_each-ShortBy :
    (k : ℕ) (q : Text) (w : WorkerJob) (js : IntSet) (s : Scheduler)
    → ShortBy k q s
    → ShortBy k q (reschedule_each w js s).0
unfolding reschedule_each
reschedule_each-ShortBy k q w [] s h = h
reschedule_each-ShortBy k q w (j ∷ js) s h =
    reschedule_each-ShortBy k q w js (reschedule_one w j s).0 (reschedule_one-ShortBy k j q w s h)

pub reschedule_job-ShortBy :
    (k : ℕ) (q : Text) (w : WorkerJob) (s : Scheduler)
    → ShortBy k q s
    → ShortBy k q (reschedule_job w s).0
unfolding reschedule_job
reschedule_job-ShortBy k q w s h = reschedule_each-ShortBy k q w (get_jobs w) s h

pub plus_zero : (a b : ℤ) → (a +ℤ pos 0 ≡ b) ↔ (a ≡ b)
plus_zero a b = (
  λ h. eq_of_parts a b (ground (arith, h, +ℤ_parts a (pos 0))),
  λ h. eq_of_parts (a +ℤ pos 0) b (ground (arith, h, +ℤ_parts a (pos 0))),
)

-- The same nodes, each with as many busy CPUs as its worker has tasks
pub keeps-IsAccounted :
    (s r : Scheduler)
    → r.nodes ≡ s.nodes
    → ((ip : Text) → ShortBy 0 ip s → ShortBy 0 ip r)
    → IsAccounted s
    → IsAccounted r
unfolding IsAccounted ShortBy
keeps-IsAccounted s r e f h ip m =
    (plus_zero (r.busy ip) (pos (get_total_num_tasks (job_at ip r)))).0
      (f ip ((plus_zero (s.busy ip) (pos (get_total_num_tasks (job_at ip s)))).1 (h ip (rw⁻¹ e m))))

-- If at each node the busy CPUs are the worker's tasks, the same holds when StopJob has stopped a
-- job.
pub stop_job-IsAccounted : (j : ℕ) (s : Scheduler) → IsAccounted s → IsAccounted (stop_job j s)
unfolding stop_job ShortBy stop_workers
stop_job-IsAccounted j s h = elim (Bool-cases (is_in j s.jobs.order)) [
  | inl e ↦
      rw (e, stop_job)
        (keeps-IsAccounted s (notify notify_all (remove_job j false timeout (stop_workers j s)))
          ((remove_job-Keeps j false timeout (stop_workers j s)).2
            ∙ (stop_at_each-SameTasks j s.nodes s).2)
          (λ ip d. stopped-ShortBy 0 j ip false timeout s d) h)
  | inr e ↦ rw (e, stop_job) h
]

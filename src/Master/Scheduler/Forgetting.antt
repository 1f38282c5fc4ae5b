-- ===== src/Master/Scheduler/Forgetting.antt =====
-- What StopWorkers and StopJob (master/scheduler.cpp) leave of a job.
use prun.Base.{
  ℕ, ◌≡◌, refl, sym, ap, ◌∙◌, Bool, true, false, not, ◌&&◌, ◌||◌, List, [], ◌∷◌, Text, text_eq,
  text_eq_iff, ◌==◌, if◌then◌else◌, arith, Bool-cases, Option-cases, inl, inr,
}
use prun.Containers.IntSet
use prun.Containers.IntMap
use prun.Containers.TextSet
use prun.Master.WorkerJob.{WorkerTask, WorkerJob, has_task, has_job, delete_job}
use prun.Master.WorkerJob.Tasks.{IsValid, delete_job-IsValid, has_task-delete_job}
use prun.Master.WorkerJob.Sums.{listed}
use prun.Master.JobStore.{is_in}
use prun.Master.JobQueue.Dependencies.{is_in-remove_same}
use prun.Master.Scheduler.{Scheduler, Status, completed, notify, timeout, job_at}
use prun.Master.Scheduler.Jobs.{drop_job, release_job, remove_job}
use prun.Master.Scheduler.Planning.{tasks_at}
use prun.Master.Scheduler.Stopping.{stop_at, stop_at_each, without_job, stop_workers, stop_job}
use prun.Master.Scheduler.Frames.{job_at-set_job, remove_job-Keeps}
use prun.Master.Scheduler.Listing.{is_waiting, set_at_tasks, set_or_nil}

-- The worker's tasks as maps and sets keep them
unfoldable pub AllValid : Scheduler → Type 0
AllValid s = (ip : Text) → IsValid (job_at ip s)

-- A worker without the job stays as it is, as it would if the job were deleted.
delete_job_absent : (j : ℕ) (w : WorkerJob) → has_job j w ≡ false → (delete_job j w).0 ≡ w
unfolding delete_job has_job
delete_job_absent j w h = elim (Option-cases (IntMap.find j w.jobs)) [
  | inl e ↦ rw (e, delete_job) refl
  | inr (q, e) ↦ ground (arith, e)
]

-- The worker's tasks after the body of the loop of StopWorkers
pub job_at-stop_at :
    (j : ℕ) (ip q : Text) (s : Scheduler)
    → job_at q (stop_at j ip s)
      ≡ (if text_eq ip q then (delete_job j (job_at ip s)).0 else job_at q s)
unfolding stop_at
job_at-stop_at j ip q s = elim (Bool-cases (has_job j (job_at ip s))) [
  | inl e ↦ rw (e, stop_at) (job_at-set_job ip q (delete_job j (job_at ip s)).0 s)
  | inr e ↦ rw (e, stop_at) (absent e (text_eq ip q) refl)
]
  where
    absent :
        has_job j (job_at ip s) ≡ false
        → (b : Bool) → text_eq ip q ≡ b
        → job_at q s ≡ (if b then (delete_job j (job_at ip s)).0 else job_at q s)
    absent n true f =
        ap (λ x. job_at x s) (sym ((text_eq_iff ip q).0 f))
        ∙ sym (delete_job_absent j (job_at ip s) n)
    absent n false f = refl

stop_at-AllValid : (j : ℕ) (ip : Text) (s : Scheduler) → AllValid s → AllValid (stop_at j ip s)
unfolding AllValid
stop_at-AllValid j ip s v q = elim (Bool-cases (text_eq ip q)) [
  | inl e ↦ rw (job_at-stop_at j ip q s, e) (delete_job-IsValid j (v ip))
  | inr e ↦ rw (job_at-stop_at j ip q s, e) (v q)
]

module _ (j i u : ℕ) (q : Text) where
  has_task-stop_at :
      (ip : Text) (s : Scheduler)
      → AllValid s
      → has_task i u (job_at q (stop_at j ip s))
        ≡ (not (text_eq ip q && j == i) && has_task i u (job_at q s))
  unfolding AllValid
  has_task-stop_at ip s v = elim (Bool-cases (text_eq ip q)) [
    | inl e ↦
        let f : ip ≡ q = (text_eq_iff ip q).0 e in
        ap (has_task i u) (job_at-stop_at j ip q s)
        ∙ rw (e, f) (has_task-delete_job j i u (job_at q s) (v q)).1
    | inr e ↦ ap (has_task i u) (job_at-stop_at j ip q s) ∙ rw e refl
  ]

  pub has_task-stop_at_each :
      (ips : List Text) (s : Scheduler)
      → AllValid s
      → has_task i u (job_at q (stop_at_each j ips s))
        ≡ (not (TextSet.contains q ips && j == i) && has_task i u (job_at q s))
  unfolding stop_at_each TextSet.contains
  has_task-stop_at_each [] s v = refl
  has_task-stop_at_each (ip ∷ ips) s v = ground (
    arith,
    has_task-stop_at_each ips (stop_at j ip s) (stop_at-AllValid j ip s v),
    has_task-stop_at ip s v,
  )

  listed-without_job :
      (ts : List WorkerTask) → listed i u (without_job j ts) ≡ (not (j == i) && listed i u ts)
  unfolding without_job
  listed-without_job [] = ground arith
  listed-without_job (t ∷ ts) = ground (arith, listed-without_job ts)

-- What StopWorkers leaves as it was at the workers
abbrev pub SameTasks : Scheduler → Scheduler → Type 0
SameTasks s r =
    (r.tasks_to_send ≡ s.tasks_to_send)
    × (r.need_reschedule ≡ s.need_reschedule)
    × (r.nodes ≡ s.nodes)
    × (r.jobs ≡ s.jobs)

stop_at-SameTasks : (j : ℕ) (ip : Text) (s : Scheduler) → SameTasks s (stop_at j ip s)
unfolding stop_at
stop_at-SameTasks j ip s = elim (Bool-cases (has_job j (job_at ip s))) [
  | inl e ↦ rw (e, stop_at) (refl, refl, refl, refl)
  | inr e ↦ rw (e, stop_at) (refl, refl, refl, refl)
]

pub stop_at_each-SameTasks :
    (j : ℕ) (ips : List Text) (s : Scheduler) → SameTasks s (stop_at_each j ips s)
unfolding stop_at_each
stop_at_each-SameTasks j [] s = (refl, refl, refl, refl)
stop_at_each-SameTasks j (ip ∷ ips) s =
    let (a, b, c, d) = stop_at_each-SameTasks j ips (stop_at j ip s) in
    let (a', b', c', d') = stop_at-SameTasks j ip s in (a ∙ a', b ∙ b', c ∙ c', d ∙ d')

module _ (j i u : ℕ) (s : Scheduler) where
  is_waiting-stop_workers :
      IntMap.Ascending s.tasks_to_send
      → is_waiting i u (stop_workers j s) ≡ (not (j == i) && is_waiting i u s)
  unfolding stop_workers is_waiting IntSet.contains
  is_waiting-stop_workers a =
      let (b, c, d, e) = stop_at_each-SameTasks j s.nodes s in
      rw
        (
          set_at_tasks i (stop_workers j s),
          b,
          c,
          IntMap.find-erase j i s.tasks_to_send a,
          set_or_nil u (j == i) (IntMap.find i s.tasks_to_send),
          listed-without_job j i u [] s.need_reschedule,
          sym (set_at_tasks i s),
        )
        (both (j == i) (listed i u s.need_reschedule) (IntSet.contains u (tasks_at i s)))
    where
      both : (b l c : Bool) → ((not b && l) || (if b then false else c)) ≡ (not b && (l || c))
      both b l c = ground arith

  -- Removing the job from the scheduled ones changes no task.
  same_view :
      (ok : Bool) (st : Status) (r : Scheduler)
      → (is_waiting i u (remove_job j ok st r) ≡ is_waiting i u r)
        × ((q : Text) → has_task i u (job_at q (remove_job j ok st r)) ≡ has_task i u (job_at q r))
  unfolding is_waiting
  same_view ok st r =
      let (a, b, c, d, e, f) = remove_job-Keeps j ok st r in
      (
        rw (set_at_tasks i (remove_job j ok st r), d, e, sym (set_at_tasks i r)) refl,
        λ q. ap (λ f. has_task i u (f q).job) a,
      )

pub is_in-remove_job :
    (j : ℕ) (ok : Bool) (st : Status) (s : Scheduler)
    → is_in j (remove_job j ok st s).jobs.order ≡ false
unfolding remove_job
is_in-remove_job j ok st s = elim (Bool-cases (is_in j (drop_job j s).jobs.order)) [
  | inl e ↦
      rw (e, remove_job)
        (is_in-remove_same j (release_job j ok (notify (completed j st) (drop_job j s))).jobs.order)
  | inr e ↦ rw (e, remove_job) e
]

-- When the job is scheduled, the workers' tasks are as maps and sets keep them, and the keys of the
-- tasks to send are in order, StopJob removes the job: it is scheduled no more, none of its tasks
-- waits, no node that the scheduler knows has one of them, and the tasks of all other jobs are
-- where they were.
pub stop_job-forgets :
    (j : ℕ) (s : Scheduler)
    → is_in j s.jobs.order ≡ true
    → AllValid s
    → IntMap.Ascending s.tasks_to_send
    → (is_in j (stop_job j s).jobs.order ≡ false)
      × ((i u : ℕ) → is_waiting i u (stop_job j s) ≡ (not (j == i) && is_waiting i u s))
      × ((ip : Text) (i u : ℕ)
          → has_task i u (job_at ip (stop_job j s))
            ≡ (not (TextSet.contains ip s.nodes && j == i) && has_task i u (job_at ip s)))
unfolding stop_job is_waiting
stop_job-forgets j s h v a =
    let r = stop_workers j s in
    rw (h, stop_job)
      (
        is_in-remove_job j false timeout r,
        (λ i u. (same_view j i u s false timeout r).0 ∙ is_waiting-stop_workers j i u s a),
        (λ ip i u.
            (same_view j i u s false timeout r).1 ip ∙ has_task-stop_at_each j i u ip s.nodes s v),
      )

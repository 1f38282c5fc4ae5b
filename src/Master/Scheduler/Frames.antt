-- ===== src/Master/Scheduler/Frames.antt =====
-- What RemoveJob and DecrementJobExecution (master/scheduled_jobs.h) leave as it was.
use prun.Base.{
  ℕ, ◌≡◌, refl, ap, ◌∙◌, Bool, true, false, ◌&&◌, Option, none, some, is_empty, Text, text_eq,
  if◌then◌else◌, Bool-cases, Option-cases, inl, inr,
}
use prun.Base.Int.{ℤ, pos, ltb_ℤ, ◌-ℤ◌}
use prun.Containers.IntMap
use prun.Master.WorkerJob.{WorkerJob}
use prun.Master.JobStore.{is_in}
use prun.Master.JobQueue.{on_job_completion}
use prun.Master.Scheduler.{
  put_at, job_at, set_job, Status, success, failure, completed, notify, Scheduler, remove_history,
}
use prun.Master.Scheduler.Jobs.{
  on_remove_job, forget_name, release_from, release_one, release_group, leave_group, release_job,
  drop_job, finish_job, set_executions, remove_job, decrement_job_execution,
}

-- The nodes with their workers, and the tasks that wait, are the same.
abbrev pub Keeps : Scheduler → Scheduler → Type 0
Keeps s r =
    (r.worker_of ≡ s.worker_of)
    × (r.busy ≡ s.busy)
    × (r.nodes ≡ s.nodes)
    × (r.tasks_to_send ≡ s.tasks_to_send)
    × (r.need_reschedule ≡ s.need_reschedule)
    × (r.spec_of ≡ s.spec_of)

pub same : (s : Scheduler) → Keeps s s
same s = (refl, refl, refl, refl, refl, refl)

pub then-Keeps : (s r q : Scheduler) → Keeps s r → Keeps r q → Keeps s q
then-Keeps s r q (a, b, c, d, e, f) (a', b', c', d', e', f') =
    (a' ∙ a, b' ∙ b, c' ∙ c, d' ∙ d, e' ∙ e, f' ∙ f)

if-Keeps : (b : Bool) (s r q : Scheduler) → Keeps s r → Keeps s q → Keeps s (if b then r else q)
if-Keeps true s r q h k = h
if-Keeps false s r q h k = k

release_one-Keeps : (b : Bool) (j : ℕ) (s : Scheduler) → Keeps s (release_one b j s)
release_one-Keeps true j s = same s
release_one-Keeps false j s = same s

release_group-Keeps : (b : Bool) (k : ℕ) (s : Scheduler) → Keeps s (release_group b k s)
release_group-Keeps true j s = same s
release_group-Keeps false j s = same s

leave_group-Keeps : (j : ℕ) (ok : Bool) (k : ℕ) (s : Scheduler) → Keeps s (leave_group j ok k s)
unfolding leave_group
leave_group-Keeps j ok k s =
    if-Keeps (on_job_completion k (s.queue.job_of j).vertex s.queue).1 s _ _
      (release_group-Keeps (ok && s.group_cron k) k _) (same s)

forget_name-Keeps : (j : ℕ) (s : Scheduler) → Keeps s (forget_name j s)
unfolding forget_name
forget_name-Keeps j s = if-Keeps (is_empty (s.queue.job_of j).name) s s _ (same s) (same s)

release_from-Keeps :
    (o : Option ℕ) (j : ℕ) (ok : Bool) (s : Scheduler) → Keeps s (release_from o j ok s)
release_from-Keeps none j ok s = release_one-Keeps (ok && (s.spec_of j).has_cron) j s
release_from-Keeps (some k) j ok s = leave_group-Keeps j ok k s

release_job-Keeps : (j : ℕ) (ok : Bool) (s : Scheduler) → Keeps s (release_job j ok s)
unfolding release_job
release_job-Keeps j ok s =
    then-Keeps s (forget_name j s) (release_job j ok s) (forget_name-Keeps j s)
      (release_from-Keeps (s.queue.job_of j).job_group j ok (forget_name j s))

drop_job-Keeps : (j : ℕ) (s : Scheduler) → Keeps s (drop_job j s)
unfolding on_remove_job remove_history
drop_job-Keeps j s = same s

finish_job-Keeps :
    (j : ℕ) (ok : Bool) (st : Status) (s : Scheduler) → Keeps s (finish_job j ok st s)
finish_job-Keeps j ok st s = release_job-Keeps j ok (notify (completed j st) s)

pub remove_job-Keeps :
    (j : ℕ) (ok : Bool) (st : Status) (s : Scheduler) → Keeps s (remove_job j ok st s)
unfolding remove_job
remove_job-Keeps j ok st s =
    if-Keeps (is_in j (drop_job j s).jobs.order) s (finish_job j ok st (drop_job j s))
      (drop_job j s)
      (then-Keeps s (drop_job j s) (finish_job j ok st (drop_job j s)) (drop_job-Keeps j s)
        (finish_job-Keeps j ok st (drop_job j s)))
      (drop_job-Keeps j s)

pub decrement_job_execution-Keeps :
    (j : ℕ) (n : ℤ) (ok : Bool) (s : Scheduler) → Keeps s (decrement_job_execution j n ok s)
unfolding decrement_job_execution
decrement_job_execution-Keeps j n ok s = elim (Option-cases (IntMap.find j s.jobs.executions)) [
  | inl e ↦ rw (e, decrement_job_execution) (same s)
  | inr (m, e) ↦
      let s' = set_executions j (m -ℤ n) s in
      rw (e, decrement_job_execution)
        (if-Keeps (ltb_ℤ (m -ℤ n) (pos 1)) s (remove_job j ok (if ok then success else failure) s')
          s' (remove_job-Keeps j ok (if ok then success else failure) s') (same s))
]

-- What is read from a map that was changed at one IP
pub put_at_same {ℓ} :
    {A : Type ℓ} (k i : Text) (v : A) (f : Text → A) → text_eq k i ≡ true → put_at k v f i ≡ v
unfolding put_at
put_at_same k i v f e = rw e refl

pub put_at_other {ℓ} :
    {A : Type ℓ} (k i : Text) (v : A) (f : Text → A) → text_eq k i ≡ false → put_at k v f i ≡ f i
unfolding put_at
put_at_other k i v f e = rw e refl

-- What a map holds at an IP, after a change at one
pub put_at_if {ℓ} :
    {A : Type ℓ} (k i : Text) (v : A) (f : Text → A)
    → put_at k v f i ≡ (if text_eq k i then v else f i)
unfolding put_at
put_at_if k i v f = refl

pub job_at-set_job :
    (ip q : Text) (w : WorkerJob) (s : Scheduler)
    → job_at q (set_job ip w s) ≡ (if text_eq ip q then w else job_at q s)
job_at-set_job ip q w s = elim (Bool-cases (text_eq ip q)) [
  | inl e ↦
      ap (λ x. x.job) (put_at_same ip q (record (s.worker_of ip) { job = w }) s.worker_of e)
      ∙ rw e refl
  | inr e ↦
      ap (λ x. x.job) (put_at_other ip q (record (s.worker_of ip) { job = w }) s.worker_of e)
      ∙ rw e refl
]

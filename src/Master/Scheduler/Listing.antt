-- ===== src/Master/Scheduler/Listing.antt =====
-- No task is lost or made up by GetReschedJobForWorker (master/scheduler.cpp).
use prun.Base.{
  ℕ, ◌≡◌, refl, subst, ◌∙◌, Bool, true, false, ◌&&◌, ◌||◌, Option, none, some, List, [], ◌∷◌, Text,
  ◌==◌, leb, if◌then◌else◌, arith, Bool-cases, Option-cases, inl, inr,
}
use prun.Containers.IntSet
use prun.Containers.IntSet.{IntSet}
use prun.Containers.IntMap
use prun.Master.WorkerJob.{WorkerTask, add_task, has_task, get_total_num_tasks}
use prun.Master.WorkerJob.Tasks.{has_task-add_task}
use prun.Master.WorkerJob.Sums.{listed, has_task-set_exclusive}
use prun.Master.Scheduler.{Scheduler}
use prun.Master.Scheduler.Planning.{
  find_job_by_job_id, Plan, look_up, takes, take_first, take_resched, resched_loop, tasks_at,
}
use prun.Master.Scheduler.Rescheduling.{Allows, takes-Allows}
use prun.Master.Scheduler.Searching.{resched_step}

-- Whether the task has to be sent, for the first time or again
unfoldable pub is_waiting : ℕ → ℕ → Scheduler → Bool
is_waiting i u s = listed i u s.need_reschedule || IntSet.contains u (tasks_at i s)

-- The set at a key
abbrev pub set_at : Option IntSet → IntSet
set_at none = []
set_at (some q) = q

pub set_at_tasks : (i : ℕ) (s : Scheduler) → tasks_at i s ≡ set_at (IntMap.find i s.tasks_to_send)
set_at_tasks i s = elim (Option-cases (IntMap.find i s.tasks_to_send)) [
  | inl e ↦ rw (e, tasks_at) refl
  | inr (q, e) ↦ rw (e, tasks_at) refl
]

pub set_or_nil :
    (u : ℕ) (b : Bool) (o : Option IntSet)
    → IntSet.contains u (set_at (if b then none else o))
      ≡ (if b then false else IntSet.contains u (set_at o))
unfolding IntSet.contains
set_or_nil u true o = refl
set_or_nil u false o = refl

pub set_or_some :
    (u : ℕ) (b : Bool) (q : IntSet) (o : Option IntSet)
    → IntSet.contains u (set_at (if b then some q else o))
      ≡ (if b then IntSet.contains u q else IntSet.contains u (set_at o))
set_or_some u true q o = refl
set_or_some u false q o = refl

pub has_task-take_first :
    (ip : Text) (k : Option ℕ) (j t i u : ℕ) (p : Plan)
    → has_task i u (take_first ip k j t p).planned ≡ ((j == i && t == u) || has_task i u p.planned)
unfolding take_first
has_task-take_first ip k j t i u p =
    has_task-set_exclusive (p.scheduler.spec_of j).exclusive i u (add_task j t p.planned)
    ∙ has_task-add_task j t i u p.planned

planned-look_up : (j : ℕ) (p : Plan) → (look_up j p).planned ≡ p.planned
planned-look_up j p = elim (Bool-cases (find_job_by_job_id j p.scheduler)) [
  | inl e ↦ rw e refl
  | inr e ↦ rw e refl
]

abbrev pub SameSets : Plan → Plan → Type 0
SameSets p q = q.scheduler.tasks_to_send ≡ p.scheduler.tasks_to_send

if-SameSets :
    (b : Bool) (p q r : Plan) → SameSets p q → SameSets p r → SameSets p (if b then q else r)
if-SameSets true p q r h k = h
if-SameSets false p q r h k = k

take_resched-SameSets : (ip : Text) (j t : ℕ) (p : Plan) → SameSets p (take_resched ip j t p)
unfolding take_resched take_first
take_resched-SameSets ip j t p = elim (Option-cases p.found) [
  | inl e ↦ rw (e, take_resched) refl
  | inr (k, e) ↦ rw (e, take_resched) refl
]

look_up-SameSets : (j : ℕ) (p : Plan) → SameSets p (look_up j p)
look_up-SameSets j p =
    if-SameSets (find_job_by_job_id j p.scheduler) p (record p { job = some j }) p refl refl

resched_step-SameSets : (ip : Text) (t : WorkerTask) (p : Plan) → SameSets p (resched_step ip t p)
resched_step-SameSets ip t p =
    let q = look_up t.job_id p in
    if-SameSets (takes ip t.job_id p) p (take_resched ip t.job_id t.task_id q) q
      (take_resched-SameSets ip t.job_id t.task_id q ∙ look_up-SameSets t.job_id p)
      (look_up-SameSets t.job_id p)

module _ (ip : Text) (cpu i u : ℕ) where
  has_task-take_resched :
      (j t : ℕ) (p : Plan)
      → takes ip j p ≡ true
      → has_task i u (take_resched ip j t p).planned
        ≡ ((j == i && t == u) || has_task i u p.planned)
  unfolding take_resched
  has_task-take_resched j t p h = elim (Option-cases p.found) [
    | inl e ↦ rw (e, take_resched) (has_task-take_first ip (some j) j t i u p)
    | inr (k, e) ↦
        let f : j ≡ k = ground (arith, subst (Allows ip cpu j p) e (takes-Allows ip cpu j p h).2) in
        rw (e, take_resched, f) (has_task-add_task k t i u p.planned)
  ]

  -- A task that the loop takes is planned.
  pub has_task-resched_step :
      (t : WorkerTask) (p : Plan)
      → has_task i u (resched_step ip t p).planned
        ≡ ((takes ip t.job_id p && (t.job_id == i && t.task_id == u)) || has_task i u p.planned)
  unfolding takes
  has_task-resched_step t p = elim (Bool-cases (takes ip t.job_id p)) [
    | inl e ↦
        rw (e, (takes-Allows ip cpu t.job_id p e).0)
          (has_task-take_resched t.job_id t.task_id (record p { job = some t.job_id }) e)
    | inr e ↦ rw (e, planned-look_up t.job_id p) refl
  ]

  -- Listed, or planned
  abbrev has_or_lists : Plan × List WorkerTask → Bool
  has_or_lists (q, left) = listed i u left || has_task i u q.planned

  stays :
      (taken at_t l h l' h' h0 : Bool)
      → h ≡ ((taken && at_t) || h0)
      → (l || h) ≡ (l' || h')
      → ((at_t || l) || h0) ≡ ((if taken then l' else (at_t || l')) || h')
  stays taken at_t l h l' h' h0 e f = ground arith

  listed-if :
      (b : Bool) (l : List WorkerTask) (t : WorkerTask)
      → listed i u (if b then l else t ∷ l)
        ≡ (if b then listed i u l else ((t.job_id == i && t.task_id == u) || listed i u l))
  listed-if true l t = refl
  listed-if false l t = refl

  pub resched_loop-has_or_lists :
      (ts : List WorkerTask) (p : Plan)
      → (listed i u ts || has_task i u p.planned) ≡ has_or_lists (resched_loop ip cpu ts p)
  unfolding resched_loop
  resched_loop-has_or_lists [] p = refl
  resched_loop-has_or_lists (t ∷ ts) p =
      elim (Bool-cases (leb cpu (get_total_num_tasks p.planned))) [
        | inl e ↦ rw e refl
        | inr e ↦
            let q = resched_step ip t p in
            let r = resched_loop ip cpu ts q in
            rw (e, listed-if (takes ip t.job_id p) r.1 t)
              (stays (takes ip t.job_id p) (t.job_id == i && t.task_id == u) (listed i u ts)
                (has_task i u q.planned) (listed i u r.1) (has_task i u r.0.planned)
                (has_task i u p.planned) (has_task-resched_step t p)
                (resched_loop-has_or_lists ts q))
      ]

  pub resched_loop-SameSets :
      (ts : List WorkerTask) (p : Plan) → SameSets p (resched_loop ip cpu ts p).0
  unfolding resched_loop
  resched_loop-SameSets [] p = refl
  resched_loop-SameSets (t ∷ ts) p = elim (Bool-cases (leb cpu (get_total_num_tasks p.planned))) [
    | inl e ↦ rw e refl
    | inr e ↦ rw e (resched_loop-SameSets ts (resched_step ip t p) ∙ resched_step-SameSets ip t p)
  ]

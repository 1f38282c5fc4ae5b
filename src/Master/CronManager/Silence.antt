-- ===== src/Master/CronManager/Silence.antt =====
-- A cron job that StopJob has stopped does not run (CronManager of master/cron_manager.cpp).
use prun.Base.{
  ℕ, ◌≡◌, ◌≢◌, sym, ap, subst, ◌∙◌, true, false, Option, none, some, List, [], Text, text_eq,
  text_eq_iff, ◌==◌, arith, Bool-cases, Option-cases, inl, inr,
}
use prun.Containers.TextMap
use prun.Containers.TextMap.{TextMap}
use prun.Master.JobStore.{update, update_self, update_other, is_in}
use prun.Master.WorkerManager.Pinging.{Distinct}
use prun.Master.JobManager.{Manager}
use prun.Master.CronManager.{
  Handler, CronManager, with_manager, insert_handler, push_job, push_group, push_meta_job, stop_job,
  stop_all_jobs, check_loop, check_timeouts,
}
use prun.Master.CronManager.Names.{handlers, is_in-emplace, IsNamed, insert_handler-IsNamed}
use prun.Master.CronManager.Stopping.{
  check_loop-Checked, check_timeouts-IsNamed, removed-update, stop_job-IsNamed, Step, push,
  push_again, push_meta, stop, stop_all, check, Reach, ReachWithout, here, next,
}

-- The handlers that CheckTimeouts lets run
abbrev pub ready : ℕ → CronManager → List ℕ
ready now c = (check_loop now c.handler_of c.jobs c.names).0

with_manager-IsNamed : (m : Manager) (c : CronManager) → IsNamed c → IsNamed (with_manager m c)
with_manager-IsNamed m c r = record { leads = r.leads; distinct = r.distinct; below = r.below }

inserted-IsNamed :
    (h : Handler) (m : Manager) (c : CronManager)
    → TextMap.find h.job_name c.names ≡ none
    → IsNamed c
    → IsNamed (insert_handler h (with_manager m c))
inserted-IsNamed h m c e r =
    insert_handler-IsNamed h (with_manager m c) e (with_manager-IsNamed m c r)

Step-IsNamed : {k : Option Text} {c d : CronManager} → Step c k d → IsNamed c → IsNamed d
unfolding push_job push_group push_meta_job stop_all_jobs handlers is_in
Step-IsNamed {c = c} (push minute now t j after e) r = inserted-IsNamed _ _ c e r
Step-IsNamed {c = c} (push_again minute now t g e) r = inserted-IsNamed _ _ c e r
Step-IsNamed {c = c} (push_meta t g e) r = inserted-IsNamed _ _ c e r
Step-IsNamed {c = c} (stop n) r = stop_job-IsNamed n c r
Step-IsNamed stop_all r = record {
  leads = λ i x. absurd (ground arith);
  distinct = tt;
  below = λ i x. absurd (ground arith);
}
Step-IsNamed {c = c} (check now) r = check_timeouts-IsNamed now c r

Reach-IsNamed : {c d : CronManager} → Reach c d → IsNamed c → IsNamed d
Reach-IsNamed here r = r
Reach-IsNamed (next q s) r = Step-IsNamed s (Reach-IsNamed q r)

ReachWithout-IsNamed : {n : Text} {c d : CronManager} → ReachWithout n c d → IsNamed c → IsNamed d
ReachWithout-IsNamed here r = r
ReachWithout-IsNamed (next q s k) r = Step-IsNamed s (ReachWithout-IsNamed q r)

-- All handlers of this name are removed.
abbrev pub Silent : Text → CronManager → Type 0
Silent n c =
    (i : ℕ)
    → is_in i (handlers c.jobs) ≡ true
    → text_eq (c.handler_of i).job_name n ≡ true
    → (c.handler_of i).removed ≡ true

stop_job-Silent : (n : Text) (c : CronManager) → IsNamed c → Silent n (stop_job n c)
unfolding stop_job
stop_job-Silent n c r = elim (Option-cases (TextMap.find n c.names)) [
  | inl e ↦
      rw (e, stop_job)
        (λ i x y. elim (Bool-cases ((c.handler_of i).removed)) [
          | inl t ↦ t
          | inr t ↦
              let p =
                ap (λ u. TextMap.find u c.names) ((text_eq_iff (c.handler_of i).job_name n).0 y) in
              let q = r.leads i x t in absurd (ground arith)
        ])
  | inr (i, e) ↦
      rw (e, stop_job)
        (λ j x y.
          let (a, b) = removed-update c.handler_of i j in
          elim (Bool-cases ((c.handler_of j).removed)) [
            | inl t ↦ b ∙ ground arith
            | inr t ↦
                let s =
                  sym a
                  ∙ (text_eq_iff
                        (update c.handler_of i (record (c.handler_of i) { removed = true })
                          j).job_name
                        n).0
                      y in
                let p = ap (λ u. TextMap.find u c.names) s in
                let q = r.leads j x t in b ∙ ground arith
          ])
]

inserted-Silent :
    (n : Text) (h : Handler) (m : Manager) (c : CronManager)
    → text_eq h.job_name n ≡ false
    → IsNamed c
    → Silent n c
    → Silent n (insert_handler h (with_manager m c))
inserted-Silent n h m c e r s i x y = elim (Bool-cases (c.made == i)) [
  | inl t ↦
      let made : c.made ≡ i = ground arith in
      let k : update c.handler_of c.made h i ≡ h =
        ap (update c.handler_of c.made h) (sym made) ∙ update_self c.handler_of c.made h in
      let p = ap (λ (g : Handler). text_eq g.job_name n) k in absurd (ground arith)
  | inr t ↦
      let o = update_other c.handler_of c.made i h t in
      ap (λ (g : Handler). g.removed) o
      ∙ s i (ground (arith, is_in-emplace h.deadline c.made i c.jobs))
          (ap (λ (g : Handler). text_eq g.job_name n) (sym o) ∙ y)
]

other_name : (k n : Text) → some k ≢ some n → text_eq k n ≡ false
other_name k n d = elim (Bool-cases (text_eq k n)) [
  | inl e ↦ absurd (d (ap some ((text_eq_iff k n).0 e)))
  | inr e ↦ e
]

stop_other-Silent : (k n : Text) (c : CronManager) → Silent n c → Silent n (stop_job k c)
unfolding stop_job
stop_other-Silent k n c s = elim (Option-cases (TextMap.find k c.names)) [
  | inl e ↦ rw (e, stop_job) s
  | inr (i, e) ↦
      rw (e, stop_job)
        (λ j x y.
          let (a, b) = removed-update c.handler_of i j in
          let z = s j x (ap (λ u. text_eq u n) (sym a) ∙ y) in b ∙ ground arith)
]

Step-Silent :
    {k : Option Text} {c d : CronManager} (n : Text)
    → Step c k d
    → k ≢ some n
    → IsNamed c
    → Silent n c
    → Silent n d
unfolding push_job push_group push_meta_job stop_all_jobs handlers is_in check_timeouts
Step-Silent {c = c} n (push minute now t j after e) d r s =
    inserted-Silent n _ c.manager c (other_name _ n d) r s
Step-Silent {c = c} n (push_again minute now t g e) d r s =
    inserted-Silent n _ c.manager c (other_name _ n d) r s
Step-Silent {c = c} n (push_meta t g e) d r s =
    inserted-Silent n _ c.manager c (other_name _ n d) r s
Step-Silent {c = c} n (stop k) d r s = stop_other-Silent k n c s
Step-Silent n stop_all d r s = λ i x y. absurd (ground arith)
Step-Silent {c = c} n (check now) d r s =
    let l = check_loop-Checked now c.handler_of c.jobs c.names r.leads r.distinct in
    λ i x y. s i (l.within i x) y

ReachWithout-Silent :
    {n : Text} {c d : CronManager} → ReachWithout n c d → IsNamed c → Silent n c → Silent n d
ReachWithout-Silent here r s = s
ReachWithout-Silent {n} (next q t k) r s =
    Step-Silent n t k (ReachWithout-IsNamed q r) (ReachWithout-Silent q r s)

-- If a manager that had no jobs at first pushes no name that is taken, then after StopJob of a name,
-- and whatever other calls without a push of this name, CheckTimeouts runs no handler of this name,
-- whenever it is called.
pub stop_job-silences :
    (n : Text) (c d e : CronManager) (now : ℕ)
    → c.jobs ≡ []
    → Reach c d
    → ReachWithout n (stop_job n d) e
    → (i : ℕ) → is_in i (ready now e) ≡ true
    → text_eq (e.handler_of i).job_name n ≡ false
unfolding handlers is_in
stop_job-silences n c d e now z q w i x =
    let start : IsNamed c = record {
      leads = λ j y. let y' = subst (λ l. is_in j (handlers l) ≡ true) z y in absurd (ground arith);
      distinct = subst Distinct (sym (ap handlers z)) tt;
      below = λ j y. let y' = subst (λ l. is_in j (handlers l) ≡ true) z y in absurd (ground arith);
    } in
    let r = stop_job-IsNamed n d (Reach-IsNamed q start) in
    let s = ReachWithout-Silent w r (stop_job-Silent n d (Reach-IsNamed q start)) in
    let u = ReachWithout-IsNamed w r in
    let l = check_loop-Checked now e.handler_of e.jobs e.names u.leads u.distinct in
    let (a, b) = l.picks i x in
    elim (Bool-cases (text_eq (e.handler_of i).job_name n)) [
      | inl y ↦ absurd (let t = s i a y in ground arith)
      | inr y ↦ y
    ]

-- ===== src/Master/CronManager/Stopping.antt =====
-- What StopJob keeps from running (CronManager of master/cron_manager.cpp), whatever comes after it.
use prun.Base.{
  ℕ, ◌≡◌, ◌≢◌, refl, sym, ap, subst, ◌∙◌, Bool, true, false, ◌||◌, Option, none, some, List, [],
  ◌∷◌, Text, text_eq, text_eq_iff, ltb, ◌==◌, arith, Bool-cases, Option-cases, inl, inr,
}
use prun.Containers.TextMap
use prun.Containers.TextMap.{TextMap}
use prun.Master.JobStore.{update, is_in}
use prun.Master.WorkerManager.Pinging.{Distinct}
use prun.Master.JobManager.Descriptions.{NewJob}
use prun.Master.JobManager.Graphs.{MetaJob}
use prun.Master.CronManager.{
  Handler, CronManager, push_job, push_group, push_meta_job, release_job, stop_job, stop_all_jobs,
  check_loop, check_timeouts,
}
use prun.Master.CronManager.Names.{handlers, find-erase, Leads, IsNamed, erase-Leads}

-- What CheckTimeouts leaves and what it picks
pub record Checked (f : ℕ → Handler) (l left : List (ℕ × ℕ)) (names : TextMap ℕ) (ready : List ℕ)
    : Type 0 where
  pub leads : Leads f left names
  pub distinct : Distinct (handlers left)
  pub within : (i : ℕ) → is_in i (handlers left) ≡ true → is_in i (handlers l) ≡ true
  pub picks :
      (i : ℕ) → is_in i ready ≡ true → (is_in i (handlers l) ≡ true) × ((f i).removed ≡ false)

pub check_loop-Checked :
    (now : ℕ) (f : ℕ → Handler) (l : List (ℕ × ℕ)) (names : TextMap ℕ)
    → Leads f l names
    → Distinct (handlers l)
    → let (ready, (left, names')) = check_loop now f l names in Checked f l left names' ready
unfolding check_loop handlers is_in
check_loop-Checked now f [] names r d = record {
  leads = r;
  distinct = tt;
  within = λ i e. e;
  picks = λ i e. absurd (ground arith);
}
check_loop-Checked now f ((t, i) ∷ l) names r d = elim (Bool-cases (ltb now t)) [
  | inl e ↦
      rw e (record {
        leads = r;
        distinct = d;
        within = λ j x. x;
        picks = λ j x. absurd (ground arith);
      })
  | inr e ↦ elim (Bool-cases ((f i).removed)) [
    | inl x ↦
        let s = check_loop-Checked now f l names (λ j y. r j (ground arith)) d.1 in
        rw (e, x)
          (record {
            leads = s.leads;
            distinct = s.distinct;
            within = λ j y. ground (arith, s.within j);
            picks = λ j y. let (a, b) = s.picks j y in (ground arith, b);
          })
    | inr x ↦
        let s =
          check_loop-Checked now f l (TextMap.erase (f i).job_name names)
            (erase-Leads f t i l names r d x) d.1 in
        rw (e, x)
          (record {
            leads = s.leads;
            distinct = s.distinct;
            within = λ j y. ground (arith, s.within j);
            picks = λ j y. elim (Bool-cases (i == j)) [
              | inl z ↦ (ground arith, subst (λ k. (f k).removed ≡ false) (ground arith) x)
              | inr z ↦ let (a, b) = s.picks j (ground arith) in (ground arith, b)
            ];
          })
  ]
]

pub check_timeouts-IsNamed :
    (now : ℕ) (c : CronManager) → IsNamed c → IsNamed (check_timeouts now c)
unfolding check_timeouts
check_timeouts-IsNamed now c r =
    let s = check_loop-Checked now c.handler_of c.jobs c.names r.leads r.distinct in
    record { leads = s.leads; distinct = s.distinct; below = λ i e. r.below i (s.within i e) }

-- ReleaseJob changes a handler into a removed one of the same name.
pub removed-update :
    (f : ℕ → Handler) (i j : ℕ)
    → let g = update f i (record (f i) { removed = true }) in
      ((g j).job_name ≡ (f j).job_name) × ((g j).removed ≡ ((i == j) || (f j).removed))
unfolding update
removed-update f i j = elim (Bool-cases (i == j)) [
  | inl e ↦ let s : i ≡ j = ground arith in rw e (ap (λ k. (f k).job_name) s, refl)
  | inr e ↦ rw e (refl, refl)
]

pub stop_job-IsNamed : (n : Text) (c : CronManager) → IsNamed c → IsNamed (stop_job n c)
unfolding stop_job
stop_job-IsNamed n c r = elim (Option-cases (TextMap.find n c.names)) [
  | inl e ↦ rw (e, stop_job) r
  | inr (i, e) ↦
      let g = (release_job i c).handler_of in
      rw (e, stop_job)
        (record {
          leads = λ j x y.
              let (a, b) = removed-update c.handler_of i j in
              let o : (i == j) ≡ false = ground arith in
              let z : (c.handler_of j).removed ≡ false = ground arith in
              let k = r.leads j x z in
              let m : text_eq (g j).job_name n ≡ false =
                elim (Bool-cases (text_eq (g j).job_name n)) [
                  | inl w ↦
                      let p =
                        ap (λ u. TextMap.find u c.names)
                          (sym a ∙ (text_eq_iff (g j).job_name n).0 w) in
                      absurd (ground arith)
                  | inr w ↦ w
                ] in
              find-erase n (g j).job_name c.names m ∙ ap (λ u. TextMap.find u c.names) a ∙ k;
          distinct = r.distinct;
          below = r.below;
        })
]

-- One call, with the name that it pushes, if any. A name that leads to a handler is not pushed:
-- JobManager registers it.
pub data Step (c : CronManager) : Option Text → CronManager → Type 0 where
  push :
      (minute now next : ℕ) (j : NewJob) (after : Bool)
      → TextMap.find j.name c.names ≡ none
      → Step c (some j.name) (push_job minute now next j after c)
  push_again :
      (minute now next : ℕ) (g : MetaJob)
      → TextMap.find g.name c.names ≡ none
      → Step c (some g.name) (push_group minute now next g c)
  push_meta :
      (next : ℕ) (g : MetaJob)
      → TextMap.find g.name c.names ≡ none
      → Step c (some g.name) (push_meta_job next g c)
  stop : (n : Text) → Step c none (stop_job n c)
  stop_all : Step c none (stop_all_jobs c)
  check : (now : ℕ) → Step c none (check_timeouts now c)

pub data Reach (c : CronManager) : CronManager → Type 0 where
  here : Reach c c
  next : {n : Option Text} {d e : CronManager} → Reach c d → Step d n e → Reach c e

-- Calls of which none pushes this name
pub data ReachWithout (n : Text) (c : CronManager) : CronManager → Type 0 where
  here : ReachWithout n c c
  next :
      {k : Option Text} {d e : CronManager}
      → ReachWithout n c d
      → Step d k e
      → k ≢ some n
      → ReachWithout n c e

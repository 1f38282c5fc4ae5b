-- ===== src/Master/CronManager/Releasing.antt =====
-- Which names are free again after StopJob (CronManager of master/cron_manager.cpp, with the names
-- of master/job_manager.cpp).
use prun.Base.{
  ℕ, ◌≡◌, refl, ap, ◌∙◌, Bool, true, false, not, ◌&&◌, ◌||◌, some, List, [], ◌∷◌, Text, text_eq,
  text_eq_iff, text_eq_refl, any, is_empty, if◌then◌else◌, arith, Bool-cases, inl, inr,
}
use prun.Containers.TextSet
use prun.Containers.TextMap
use prun.Master.JobStore.{update_self}
use prun.Master.JobManager.{Manager, call, name_added, register_job_name, release_job_name}
use prun.Master.JobManager.Descriptions.{NewJob}
use prun.Master.JobManager.Graphs.{MetaJob, insert_file}
use prun.Master.JobManager.Cycles.{is_file, insert_file-is_file}
use prun.Master.JobManager.Naming.{release-contains}
use prun.Master.CronManager.{
  Handler, CronManager, with_manager, new_handler, insert_handler, push_group, push_meta_job,
  job_names, register_each, release_each, stop_job,
}
use prun.Master.CronManager.Names.{find-change}

abbrev pub is_registered : Text → Manager → Bool
is_registered k m = TextSet.contains k m.job_names

register-contains :
    (n k : Text) (m : Manager)
    → is_empty k ≡ false
    → is_registered k (register_job_name n m) ≡ (text_eq n k || is_registered k m)
unfolding register_job_name
register-contains n k m e = ground (arith, TextSet.contains-insert n k m.job_names, text_eq_iff n k)

release_each-contains :
    (k : Text) (ns : List Text) (m : Manager)
    → is_empty k ≡ false
    → is_registered k (release_each ns m) ≡ (not (is_file k ns) && is_registered k m)
unfolding release_each
release_each-contains k [] m e = refl
release_each-contains k (n ∷ ns) m e =
    release_each-contains k ns (release_job_name n m).0 e
    ∙ ground (arith, release-contains n k m, text_eq_iff n k)

-- Whether one of the jobs has this name
abbrev pub is_job : Text → List NewJob → Bool
is_job k js = any (λ j. text_eq j.name k) js

job_names-contains :
    (k : Text) (js : List NewJob) (s : List Text)
    → is_empty k ≡ false
    → is_file k (job_names js s) ≡ (is_job k js || is_file k s)
unfolding job_names
job_names-contains k [] s e = refl
job_names-contains k (j ∷ js) s e = elim (Bool-cases (is_empty j.name)) [
  | inl h ↦ rw h (job_names-contains k js s e ∙ ground (arith, text_eq_iff j.name k))
  | inr h ↦ rw h (
      job_names-contains k js (insert_file j.name s) e
      ∙ ground (arith, insert_file-is_file j.name k s))
]

if_registered :
    (k : Text) (b : Bool) (m n : Manager)
    → is_registered k (if b then m else n) ≡ (if b then is_registered k m else is_registered k n)
if_registered k true m n = refl
if_registered k false m n = refl

register_each-contains :
    (k : Text) (js : List NewJob) (m : Manager)
    → is_empty k ≡ false
    → is_registered k (register_each js m) ≡ (is_job k js || is_registered k m)
unfolding register_each
register_each-contains k [] m e = refl
register_each-contains k (j ∷ js) m e =
    let n = register_job_name j.name m in
    register_each-contains k js (if is_empty j.name then m else n) e
    ∙ ap (λ b. is_job k js || b) (if_registered k (is_empty j.name) m n)
    ∙ ground (arith, register-contains j.name k m e, text_eq_iff j.name k)

-- StopJob of the handler that has just been pushed
inserted-contains :
    (k : Text) (h : Handler) (m : Manager) (c : CronManager)
    → is_empty k ≡ false
    → is_registered k (stop_job h.job_name (insert_handler h (with_manager m c))).manager
      ≡ (not (text_eq h.job_name k || is_file k h.job_names) && is_registered k m)
unfolding stop_job
inserted-contains k h m c e =
    let d = insert_handler h (with_manager m c) in
    let t = text_eq_refl h.job_name in
    let f : TextMap.find h.job_name d.names ≡ some c.made =
      find-change h.job_name h.job_name c.made c.names ∙ rw t refl in
    let u = update_self c.handler_of c.made h in
    let released : Handler → Manager =
      λ g. (release_job_name g.job_name (release_each g.job_names m)).0 in
    rw (f, stop_job)
      (ap (λ g. is_registered k (released g)) u
        ∙ release-contains h.job_name k (release_each h.job_names m)
        ∙ ground (arith, release_each-contains k h.job_names m e, text_eq_iff h.job_name k))

-- After PushMetaJob of the jobs of a new meta job and StopJob of its name, just the names that were
-- registered before and are neither the meta job's nor one of its jobs' are registered.
pub push_meta_job-frees :
    (k : Text) (next : ℕ) (g : MetaJob) (c : CronManager)
    → is_empty k ≡ false
    → is_registered k (stop_job g.name (push_meta_job next g c)).manager
      ≡ (not (text_eq g.name k || is_job k g.jobs) && is_registered k c.manager)
unfolding push_meta_job
push_meta_job-frees k next g c e =
    let m = call (name_added g.name g.description) (register_job_name g.name c.manager) in
    inserted-contains k (new_handler next g.name g.description (job_names g.jobs []))
      (register_each g.jobs m) c e
    ∙ ground (
      arith,
      job_names-contains k g.jobs [] e,
      register_each-contains k g.jobs m e,
      register-contains g.name k c.manager e,
    )

-- After PushMetaJob of a group and StopJob of its name, each name but the group's is registered if
-- and only if it was before, the names of the group's jobs as well.
pub push_group-keeps :
    (k : Text) (minute now next : ℕ) (g : MetaJob) (c : CronManager)
    → is_empty k ≡ false
    → is_registered k (stop_job g.name (push_group minute now next g c)).manager
      ≡ (not (text_eq g.name k) && is_registered k c.manager)
unfolding push_group
push_group-keeps k minute now next g c e = inserted-contains k _ _ c e ∙ ground arith

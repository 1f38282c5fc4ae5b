-- ===== src/Master/JobManager/Naming.antt =====
-- The names that JobManager keeps (master/job_manager.cpp): taken by PushJob, free again after
-- DeleteJob.
use prun.Base.{
  ℕ, ◌+◌, ◌≡◌, ◌≢◌, refl, ap, subst, ◌∙◌, Bool, true, false, not, ◌&&◌, some, List, [], ◌∷◌, Text,
  text_eq, text_eq_iff, text_eq_refl, any, is_empty, arith,
}
use prun.Base.Int.{ℤ, pos}
use prun.Containers.IntSet
use prun.Containers.TextSet
use prun.Containers.TextSet.{TextSet}
use prun.Master.JobStore.{Event, Queue, callback, job_deleted, unknown_delayed, name_released}
use prun.Master.JobQueue
use prun.Master.JobQueue.{
  add_name, register, is_alive, release_meta_job_name, remove_first, complete_edge, complete_edges,
  on_job_dependencies_resolved, on_job_completion, release_last, leave_group, on_job_deletion,
  forget_name, take_out, out_jobs,
}
use prun.Master.JobManager.Descriptions.{
  Outside, NewJob, guard, has_job_name, create_from, create_job,
}
use prun.Master.JobManager.{
  Manager, register_job_name, release_job_name, settle_one, settle_each, set_job_id, push_job,
  delete_job,
}
use prun.Master.JobManager.Ids.{register-Same}
use prun.Master.JobManager.Cycles.{bind_some}
use prun.Master.JobManager.Releasing.{is_release, delete_job-releases}

-- ReleaseJobName
pub release-contains :
    (m n : Text) (s : Manager)
    → TextSet.contains n (release_job_name m s).0.job_names
      ≡ (not (not (is_empty m) && text_eq m n) && TextSet.contains n s.job_names)
unfolding release_job_name
release-contains m n s =
    ground
      (arith, TextSet.contains-erase m n s.job_names, text_eq_iff m n, contains_eq m n s.job_names)
  where
    contains_eq :
        (x y : Text) (t : TextSet)
        → text_eq x y ≡ true
        → TextSet.contains x t ≡ TextSet.contains y t
    contains_eq x y t e = ap (λ z. TextSet.contains z t) ((text_eq_iff x y).0 e)

settle_one-contains :
    (n : Text) (e : Event) (m : Manager)
    → is_empty n ≡ false
    → TextSet.contains n (settle_one e m).job_names
      ≡ (not (is_release n e) && TextSet.contains n m.job_names)
unfolding settle_one
settle_one-contains n (name_released k) m h =
    release-contains k n m ∙ ground (arith, text_eq_iff k n)
settle_one-contains n (callback i) m h = refl
settle_one-contains n (job_deleted i) m h = refl
settle_one-contains n (unknown_delayed i) m h = refl

settle_each-contains :
    (n : Text) (es : List Event) (m : Manager)
    → is_empty n ≡ false
    → TextSet.contains n (settle_each es m).job_names
      ≡ (not (any (is_release n) es) && TextSet.contains n m.job_names)
unfolding settle_each
settle_each-contains n [] m h = refl
settle_each-contains n (e ∷ es) m h =
    settle_each-contains n es (settle_one e m) h ∙ ground (arith, settle_one-contains n e m h)

has_name : (n : Text) (s : TextSet) → is_empty n ≡ false → has_job_name n s ≡ TextSet.contains n s
has_name n s h = ground arith

-- After DeleteJob of a job that is registered and has a name, the name is free.
pub delete_job-frees :
    (i : ℕ) (m : Manager)
    → IntSet.contains i m.queue.id_to_job ≡ true
    → is_empty (m.queue.job_of i).name ≡ false
    → has_job_name (m.queue.job_of i).name (delete_job i m).0.job_names ≡ false
unfolding delete_job
delete_job-frees i m e h =
    let n = (m.queue.job_of i).name in
    let q = (JobQueue.delete_job i m.queue).0 in
    let r = delete_job-releases i m.queue e h in
    has_name n _ h
    ∙ (settle_each-contains n q.events (record m { queue = record q { events = [] } }) h
        ∙ ap (λ b. not b && TextSet.contains n m.job_names) r)

create_job-free :
    (out : Outside) (dir : Text) (names : TextSet) (text : Text) (j : NewJob)
    → create_job out dir names text true ≡ some j
    → has_job_name j.name names ≡ false
unfolding create_job
create_job-free out dir names text j h =
    let (t, _, h1) = bind_some (out.read_json text) _ h in
    let (k, _, h2) = bind_some (create_from out dir t) _ h1 in
    let (_, g, h3) = bind_some (guard (not (true && has_job_name k.name names))) _ h2 in
    let e : record k { description = text } ≡ j = cc in
    subst (λ (x : NewJob). has_job_name x.name names ≡ false) e
      (free_name (has_job_name k.name names) g)
  where
    free_name : (b : Bool) {u : Unit {0}} → guard (not (true && b)) ≡ some u → b ≡ false
    free_name true x = absurd (ground arith)
    free_name false x = refl

add_name-events : (n : Text) (h : ℕ) (q : Queue) → (add_name n h q).events ≡ q.events
add_name-events [] h q = refl
add_name-events (c ∷ n) h q = refl

push_job-events : (i : ℕ) (g : ℤ) (q : Queue) → (JobQueue.push_job i g q).events ≡ q.events
unfolding JobQueue.push_job
push_job-events i g q = let r = register g i q in add_name-events (r.job_of i).name i r

register-contains :
    (n : Text) (m : Manager)
    → is_empty n ≡ false
    → TextSet.contains n (register_job_name n m).job_names ≡ true
unfolding register_job_name
register-contains n m h =
    rw (h, register_job_name)
      (TextSet.contains-insert n n m.job_names ∙ ground (arith, text_eq_refl n))

push_job-contains :
    (second now : ℕ) (j : NewJob) (m : Manager)
    → m.queue.events ≡ []
    → is_empty j.name ≡ false
    → TextSet.contains j.name (push_job second now j m).job_names ≡ true
unfolding push_job
push_job-contains second now j m e h =
    let i = m.job_id in
    let g = pos m.num_job_groups in
    let r = register_job_name j.name m in
    let m' : Manager = set_job_id m.num_job_groups i j (record r { job_id = i + 1 }) in
    let q = JobQueue.push_job i (pos m'.num_job_groups) m'.queue in
    let quiet : q.events ≡ [] =
      push_job-events i (pos m'.num_job_groups) m'.queue
      ∙ ap (λ (x : Queue). x.events) (register-Same j.name m).0
      ∙ e in
    settle_each-contains j.name q.events (record m' { queue = record q { events = [] } }) h
    ∙ ap (λ es. not (any (is_release j.name) es) && TextSet.contains j.name r.job_names) quiet
    ∙ register-contains j.name m h

-- If the queue has no calls to settle, then after PushJob of a job with a name, CreateJob with the
-- check of names makes no job of that name.
pub push_job-takes :
    (second now : ℕ) (out : Outside) (dir text : Text) (j k : NewJob) (m : Manager)
    → m.queue.events ≡ []
    → is_empty j.name ≡ false
    → create_job out dir (push_job second now j m).job_names text true ≡ some k
    → k.name ≢ j.name
push_job-takes second now out dir text j k m e h c d =
    let names = (push_job second now j m).job_names in
    let f = create_job-free out dir names text k c in
    let t : has_job_name k.name names ≡ true =
      ap (λ n. has_job_name n names) d
      ∙ has_name j.name names h
      ∙ push_job-contains second now j m e h in
    cc

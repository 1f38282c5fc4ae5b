-- ===== src/Master/JobManager/Building.antt =====
-- JobManager::BuildAndPushJob (master/job_manager.cpp): jobs of the history and of cron.
use prun.Base.{
  ℕ, suc, ◌+◌, Bool, true, false, Option, none, some, List, [], ◌∷◌, Text, codes, ltb, leb,
  is_empty, if◌then◌else◌,
}
use prun.Base.Int.{ℤ, pos, negsuc}
use prun.Master.JobStore.{update}
use prun.Master.JobQueue
use prun.Master.Timeouts.{push}
use prun.Master.JobManager.Descriptions.{Ptree, Outside, NewJob, create_job}
use prun.Master.JobManager.Graphs.{MetaJob, create_meta_job}
use prun.Master.JobManager.{
  Manager, new_job, cron_job, cron_meta_job, call, register_job_name, set_job_id, set_group,
  ids_from, all_to_queue, push_timeouts, to_queue, push_timeout, settle_each,
}

-- The loop over the jobs from the history, from the id `i` on
unfoldable pub keep_ids : ℕ → ℕ → List NewJob → Manager → Manager
unfolding register_job_name update
keep_ids g i [] m = m
keep_ids g i (j ∷ js) m =
    let m' = register_job_name j.name m in
    keep_ids g (suc i) js
      (set_job_id g i j (record m' { job_id = if leb (m.job_id + 1) i then i + 1 else m.job_id }))

-- That loop when the jobs come from cron
unfoldable pub next_ids : ℕ → List NewJob → Manager → Manager
unfolding update
next_ids g [] m = m
next_ids g (j ∷ js) m = next_ids g js (set_job_id g m.job_id j (record m { job_id = m.job_id + 1 }))

-- What follows that loop, for jobs with the ids from `i` on
unfoldable pub enqueue : ℕ → ℕ → ℕ → MetaJob → Manager → Manager
unfolding ids_from update JobQueue.push_jobs settle_each push_timeouts
enqueue second now i mj m =
    let g = m.num_job_groups in
    let ids = ids_from i mj.jobs in
    let m' : Manager = record m { num_job_groups = g + 1 } in
    push_timeouts second now i mj.jobs (call new_job (all_to_queue g ids (set_group g mj ids m')))

-- The branch of a meta job that is not empty, from the history
unfoldable pub restore_meta : ℕ → ℕ → ℕ → MetaJob → Manager → Manager
unfolding register_job_name keep_ids enqueue
restore_meta second now i mj m =
    enqueue second now i mj (keep_ids m.num_job_groups i mj.jobs (register_job_name mj.name m))

-- The branch of a meta job that is not empty, of cron
unfoldable pub start_meta : ℕ → ℕ → Bool → MetaJob → Manager → Manager
unfolding next_ids enqueue
start_meta second now planned mj m =
    if planned
    then enqueue second now m.job_id mj (next_ids m.num_job_groups mj.jobs m)
    else call (cron_meta_job mj) m

-- The branch of a single job from the history: the timeout is registered for the id that `jobId++`
-- leaves.
unfoldable pub restore_job : ℕ → ℕ → ℕ → NewJob → Manager → Manager
unfolding register_job_name update JobQueue.push_job settle_each push
restore_job second now i j m =
    let m' = register_job_name j.name m in
    push_timeout second now (i + 1) j (
      call new_job (
        to_queue i (
          set_job_id m.num_job_groups i j
            (record m' { job_id = if leb m.job_id i then i + 1 else m.job_id }))))

-- The branch of a single job of cron. Its timeout is registered for the negative id that was passed
-- in: no job has it, so that the entry, which does nothing, is left out.
unfoldable pub start_job : Bool → NewJob → Manager → Manager
unfolding update JobQueue.push_job settle_each
start_job planned j m =
    let i = m.job_id in
    if planned
    then call new_job (to_queue i (set_job_id m.num_job_groups i j (record m { job_id = i + 1 })))
    else call (cron_job j) m

abbrev pub if_made : Option MetaJob → (MetaJob → Manager → Manager) → Manager → Manager
if_made none f m = m
if_made (some mj) f m = if is_empty mj.jobs then m else f mj m

abbrev pub if_created : Option NewJob → (NewJob → Manager → Manager) → Manager → Manager
if_created none f m = m
if_created (some j) f m = f j m

-- BuildAndPushJob, of a description that read_json takes
abbrev pub build_read : ℕ → ℕ → Outside → ℤ → Text → Bool → Ptree → Manager → Manager
build_read second now out (pos i) text planned t m =
    if ltb 0 (t.count (codes "graph"))
    then if_made (create_meta_job out m.jobs_dir m.job_names text true) (restore_meta second now i)
        m
    else if_created (create_job out m.jobs_dir m.job_names text true) (restore_job second now i) m
build_read second now out (negsuc n) text planned t m =
    if ltb 0 (t.count (codes "graph"))
    then if_made (create_meta_job out m.jobs_dir m.job_names text false)
        (start_meta second now planned) m
    else if_created (create_job out m.jobs_dir m.job_names text false) (start_job planned) m

-- BuildAndPushJob
unfoldable pub build_and_push_job : ℕ → ℕ → Outside → ℤ → Text → Bool → Manager → Manager
unfolding create_meta_job create_job restore_meta start_meta restore_job start_job
build_and_push_job second now out i text planned m = elim (out.read_json text) [
  | none ↦ m
  | some t ↦ build_read second now out i text planned t m
]

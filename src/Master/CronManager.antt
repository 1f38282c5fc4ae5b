-- ===== src/Master/CronManager.antt =====
-- CronManager of master/cron_manager.h and master/cron_manager.cpp, over JobManager's names. The
-- clock is an argument, and so is what CronJob::Next returns for it, in ticks of which a minute has
-- `minute`; where Next throws, nothing is changed.
pub mod Names
pub mod Stopping
pub mod Silence
pub mod Releasing
mod Checks
use prun.Base.{
  ℕ, suc, zero, ◌+◌, Bool, true, false, not, Option, none, some, List, [], ◌∷◌, ◌++◌, Text,
  is_empty, ltb, leb, if◌then◌else◌,
}
use prun.Containers.TextMap
use prun.Containers.TextMap.{TextMap}
use prun.Master.JobStore.{update}
use prun.Master.Timeouts.{emplace}
use prun.Master.JobManager.{
  Manager, call, name_added, name_deleted, build, register_job_name, release_job_name,
}
use prun.Master.JobManager.Descriptions.{NewJob}
use prun.Master.JobManager.Graphs.{MetaJob, insert_file}

-- TimeoutHandler: `job_names` is that of a MetaJobTimeoutHandler, and empty in a JobTimeoutHandler.
pub record Handler : Type 0 where
  pub deadline : ℕ
  pub job_description : Text
  pub job_name : Text
  pub job_names : List Text
  pub removed : Bool

-- The handlers are shared by `jobs` and `names`, and numbered in the order in which they are made.
pub record CronManager : Type 0 where
  pub handler_of : ℕ → Handler
  pub made : ℕ
  pub jobs : List (ℕ × ℕ)
  pub names : TextMap ℕ
  pub manager : Manager

-- The tail that the three operations below have in common
abbrev pub insert_handler : Handler → CronManager → CronManager
insert_handler h c = record c {
  handler_of = update c.handler_of c.made h;
  made = c.made + 1;
  jobs = emplace h.deadline c.made c.jobs;
  names = TextMap.change h.job_name c.made (λ i. c.made) c.names;
}

abbrev pub new_handler : ℕ → Text → Text → List Text → Handler
new_handler deadline name description job_names = record {
  deadline = deadline;
  job_description = description;
  job_name = name;
  job_names = job_names;
  removed = false;
}

abbrev pub with_manager : Manager → CronManager → CronManager
with_manager m c = record c { manager = m }

-- After an execution the next time is behind the present one.
abbrev pub postpone : ℕ → ℕ → ℕ → ℕ
postpone minute now next = if leb next now then next + minute else next

-- PushJob
unfoldable pub push_job : ℕ → ℕ → ℕ → NewJob → Bool → CronManager → CronManager
unfolding register_job_name update emplace TextMap.change
push_job minute now next j after_execution c =
    let m = if after_execution then c.manager else register_job_name j.name c.manager in
    let deadline = if after_execution then postpone minute now next else next in
    insert_handler (new_handler deadline j.name j.description [])
      (with_manager (call (name_added j.name j.description) m) c)

-- PushMetaJob of a group, after an execution
unfoldable pub push_group : ℕ → ℕ → ℕ → MetaJob → CronManager → CronManager
unfolding update emplace TextMap.change
push_group minute now next g c =
    insert_handler (new_handler (postpone minute now next) g.name g.description [])
      (with_manager (call (name_added g.name g.description) c.manager) c)

-- The loop of PushMetaJob over the jobs: the handler's set of names, which has an order
unfoldable pub job_names : List NewJob → List Text → List Text
unfolding insert_file
job_names [] s = s
job_names (j ∷ js) s = job_names js (if is_empty j.name then s else insert_file j.name s)

-- That loop: the names that are registered; RegisterJobName does not register an empty one.
unfoldable pub register_each : List NewJob → Manager → Manager
unfolding register_job_name
register_each [] m = m
register_each (j ∷ js) m =
    register_each js (if is_empty j.name then m else register_job_name j.name m)

-- PushMetaJob of the jobs of a new meta job
unfoldable pub push_meta_job : ℕ → MetaJob → CronManager → CronManager
unfolding register_job_name register_each job_names update emplace TextMap.change
push_meta_job next g c =
    let m = call (name_added g.name g.description) (register_job_name g.name c.manager) in
    insert_handler (new_handler next g.name g.description (job_names g.jobs []))
      (with_manager (register_each g.jobs m) c)

unfoldable pub release_each : List Text → Manager → Manager
unfolding release_job_name
release_each [] m = m
release_each (n ∷ ns) m = release_each ns (release_job_name n m).0

-- ReleaseJob
abbrev pub release_job : ℕ → CronManager → CronManager
release_job i c =
    let h = c.handler_of i in
    record c {
      handler_of = update c.handler_of i (record h { removed = true });
      manager =
          call (name_deleted h.job_name)
            (release_job_name h.job_name (release_each h.job_names c.manager)).0;
    }

-- StopJob
unfoldable pub stop_job : Text → CronManager → CronManager
unfolding TextMap.find TextMap.erase update release_each release_job_name
stop_job n c = elim (TextMap.find n c.names) [
  | none ↦ c
  | some i ↦ record (release_job i c) { names = TextMap.erase n c.names }
]

unfoldable pub release_jobs : List (ℕ × ℕ) → CronManager → CronManager
unfolding update release_each release_job_name
release_jobs [] c = c
release_jobs ((t, i) ∷ l) c = release_jobs l (release_job i c)

-- StopAllJobs, and Shutdown
unfoldable pub stop_all_jobs : CronManager → CronManager
unfolding release_jobs
stop_all_jobs c = record (release_jobs c.jobs c) { jobs = []; names = [] }

-- The loop of CheckTimeouts: the handlers that are ready, and what is left
unfoldable pub check_loop :
    ℕ → (ℕ → Handler) → List (ℕ × ℕ) → TextMap ℕ → List ℕ × (List (ℕ × ℕ) × TextMap ℕ)
unfolding TextMap.erase
check_loop now f [] names = ([], ([], names))
check_loop now f ((t, i) ∷ l) names =
    let removed = (f i).removed in
    let (ready, left) =
      check_loop now f l (if removed then names else TextMap.erase (f i).job_name names) in
    if ltb now t then ([], ((t, i) ∷ l, names)) else ((if removed then ready else i ∷ ready), left)

-- The second loop of CheckTimeouts: HandleTimeout of both handlers
unfoldable pub handle_each : List ℕ → (ℕ → Handler) → Manager → Manager
handle_each [] f m = m
handle_each (i ∷ is) f m = handle_each is f (call (build (f i).job_description) m)

-- CheckTimeouts. What BuildAndPushJob pushes again is a call of its own.
unfoldable pub check_timeouts : ℕ → CronManager → CronManager
unfolding check_loop handle_each
check_timeouts now c =
    let (ready, (jobs, names)) = check_loop now c.handler_of c.jobs c.names in
    record c { jobs = jobs; names = names; manager = handle_each ready c.handler_of c.manager }

-- GetJobsInfo
unfoldable pub get_jobs_info : TextMap ℕ → (ℕ → Handler) → List (Text × ℕ)
get_jobs_info [] f = []
get_jobs_info ((n, i) ∷ m) f =
    let rest = get_jobs_info m f in
    if (f i).removed then rest else ((f i).job_name, (f i).deadline) ∷ rest

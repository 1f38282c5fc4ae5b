-- ===== src/Master/CronManager/Checks.antt =====
-- Tests of the model of CronManager, and its theorems at concrete jobs.
use prun.Base.{◌≡◌, refl, true, false, not, ◌&&◌, ◌||◌, [], ◌∷◌, Text, codes, text_eq, arith}
use prun.Containers.TextMap
use prun.Master.JobStore.{is_in}
use prun.Master.JobManager.Graphs.{MetaJob}
use prun.Master.JobManager.Samples.{job, both, manager}
use prun.Master.CronManager.{
  CronManager, push_job, push_group, push_meta_job, stop_job, stop_all_jobs, check_loop,
  check_timeouts, get_jobs_info,
}
use prun.Master.CronManager.Stopping.{here, next, push, check}
use prun.Master.CronManager.Silence.{ready, stop_job-silences}
use prun.Master.CronManager.Releasing.{is_registered, is_job, push_meta_job-frees, push_group-keeps}

abbrev nothing : CronManager
nothing = record {
  handler_of = λ i. record {
    deadline = 0;
    job_description = [];
    job_name = [];
    job_names = [];
    removed = false;
  };
  made = 0;
  jobs = [];
  names = [];
  manager = manager;
}

abbrev daily : Text
daily = codes "daily"

abbrev hourly : Text
hourly = codes "hourly"

-- Two jobs, of which the second is earlier
abbrev pushed : CronManager
pushed = push_job 60 0 50 (job hourly) false (push_job 60 0 90 (job daily) false nothing)

in_order : (pushed.jobs ≡ (50, 1) ∷ (90, 0) ∷ []) × (pushed.manager.job_names ≡ hourly ∷ daily ∷ [])
unfolding push_job
in_order = (refl, refl)

told : get_jobs_info pushed.names pushed.handler_of ≡ (daily, 90) ∷ (hourly, 50) ∷ []
unfolding push_job get_jobs_info
told = refl

run : (check_timeouts 60 pushed).jobs ≡ (90, 0) ∷ []
unfolding push_job check_timeouts
run = refl

-- After an execution at 60, at a time that is still allowed
pushed_again :
    (push_job 60 60 60 (job hourly) true (check_timeouts 60 pushed)).jobs ≡ (90, 0) ∷ (120, 2) ∷ []
unfolding push_job check_timeouts
pushed_again = refl

all_stopped : (stop_all_jobs pushed).manager.job_names ≡ []
unfolding push_job stop_all_jobs
all_stopped = refl

stopped : ready 90 (stop_job daily pushed) ≡ 1 ∷ []
unfolding push_job stop_job check_loop
stopped = refl

stop_job-silences_example :
    let e = check_timeouts 40 (stop_job daily (push_job 60 0 90 (job daily) false nothing)) in
    text_eq ((push_job 60 50 50 (job hourly) false e).handler_of 1).job_name daily ≡ false
unfolding push_job stop_job check_timeouts TextMap.find is_in
stop_job-silences_example =
    let d = push_job 60 0 90 (job daily) false nothing in
    let e = check_timeouts 40 (stop_job daily d) in
    stop_job-silences daily nothing d (push_job 60 50 50 (job hourly) false e) 95 refl
      (next here (push 60 0 90 (job daily) false refl))
      (next (next here (check 40) (ground arith)) (push 60 50 50 (job hourly) false refl)
        (ground arith))
      1 refl

-- A meta job with a job that has a name
abbrev group : MetaJob
group = record both { jobs = job hourly ∷ [] }

push_meta_job-frees_example :
    is_registered hourly (stop_job group.name (push_meta_job 50 group nothing)).manager ≡ (
      not (text_eq group.name hourly || is_job hourly group.jobs)
      && is_registered hourly nothing.manager)
push_meta_job-frees_example = push_meta_job-frees hourly 50 group nothing refl

push_group-keeps_example :
    let c = check_timeouts 50 (push_meta_job 50 group nothing) in
    is_registered hourly (stop_job group.name (push_group 60 50 90 group c)).manager
    ≡ (not (text_eq group.name hourly) && is_registered hourly c.manager)
push_group-keeps_example =
    push_group-keeps hourly 60 50 90 group (check_timeouts 50 (push_meta_job 50 group nothing)) refl

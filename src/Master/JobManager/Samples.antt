-- ===== src/Master/JobManager/Samples.antt =====
-- Jobs and a manager for the tests of JobManager (master/job_manager.h).
use prun.Base.{none, false, true, [], ◌∷◌, Text, codes}
use prun.Base.Int.{pos, negsuc}
use prun.Master.Permissions.{no_limits}
use prun.Master.Scheduler.{JobSpec}
use prun.Master.JobManager.{Manager}
use prun.Master.JobManager.Descriptions.{NewJob}
use prun.Master.JobManager.Graphs.{MetaJob}

abbrev pub spec : JobSpec
spec = record {
  num_exec = pos 1;
  per_host = false;
  max_failed_nodes = pos 1;
  max_cluster_instances = pos 1;
  max_worker_instances = pos 1;
  max_exec_at_worker = negsuc 0;
  exclusive = false;
  no_reschedule = false;
  has_cron = false;
  permissions = no_limits;
}

abbrev pub job : Text → NewJob
job n = record {
  script = [];
  language = codes "python";
  file_path = codes "/jobs/run.py";
  name = n;
  description = codes "job";
  priority = pos 1;
  timeout = pos 1;
  queue_timeout = pos 1;
  task_timeout = pos 1;
  spec = spec;
  num_depends = pos 0;
  vertex = 0;
  in_group = false;
}

abbrev pub both : MetaJob
both = record {
  name = codes "both";
  description = [];
  has_cron = false;
  edges = (0, 1) ∷ [];
  jobs =
      record (job []) { description = codes "meta"; in_group = true }
      ∷ record (job []) { num_depends = pos 1; vertex = 1; in_group = true }
      ∷ [];
}

-- A manager with an empty queue
abbrev pub manager : Manager
manager = record {
  queue = record {
    job_of = λ i. record {
      priority = pos 0;
      group_id = pos 0;
      num_depends = pos 0;
      name = [];
      job_group = none;
      vertex = 0;
    };
    group_of = λ g. record { edges = []; index_to_job = []; num_completed = 0; name = [] };
    jobs = [];
    delayed = [];
    id_to_job = [];
    names = [];
    held = [];
    events = [];
  };
  spec_of = λ i. spec;
  callbacks = [];
  num_job_groups = 0;
  job_id = 0;
  job_names = [];
  jobs_dir = codes "/jobs";
  calls = [];
}

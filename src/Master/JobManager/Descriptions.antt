-- ===== src/Master/JobManager/Descriptions.antt =====
-- What JobManager reads from outside (master/job_manager.cpp): descriptions as property trees, files
-- and the cron grammar; and CreateJob, which makes a job of a description.
use prun.Base.{
  ℕ, Bool, true, false, not, ◌&&◌, Option, none, some, List, [], ◌∷◌, ◌++◌, Text, text_eq, codes,
  ltb, is_empty, ◌==◌, if◌then◌else◌,
}
use prun.Base.Int.{ℤ, pos, negsuc, ltb_ℤ}
use prun.Containers.TextSet
use prun.Containers.TextSet.{TextSet}
use prun.Master.Permissions.{
  Permissions, no_limits, add_host, add_host_to_blacklist, add_group, add_group_to_blacklist,
}
use prun.Master.Scheduler.{JobSpec}

-- boost::property_tree::ptree: `get` of each type, `none` where it throws; `get_child` of a list of
-- values, and of a list of such lists
pub record Ptree : Type 0 where
  pub get_text : Text → Option Text
  pub get_int : Text → Option ℤ
  pub get_bool : Text → Option Bool
  pub count : Text → ℕ
  pub get_list : Text → Option (List Text)
  pub get_lists : Text → Option (List (List Text))

-- read_json; the file system; the Base64 encoder; whether the grammar of CronJob::Parse accepts; and
-- the edges for which depth_first_search calls the visitor's back_edge
pub record Outside : Type 0 where
  pub read_json : Text → Option Ptree
  pub read_file : Text → Option Text
  pub encode_base64 : Text → Option Text
  pub parses_cron : Text → Bool
  pub back_edges : List (ℕ × ℕ) → List (ℕ × ℕ)

infixl 5 ◌>>=◌ ◌>>◌
abbrev pub ◌>>=◌ {ℓ κ} : {A : Type ℓ} {B : Type κ} → Option A → (A → Option B) → Option B
none >>= f = none
some a >>= f = f a

abbrev pub ◌>>◌ {ℓ} : {B : Type ℓ} → Option (Unit {0}) → Option B → Option B
m >> k = m >>= λ _. k

abbrev pub guard : Bool → Option (Unit {0})
guard true = some tt
guard false = none

-- The fields of a Job that CreateJob and PrepareJobGraph set. `in_group` is whether it has a group.
pub record NewJob : Type 0 where
  pub script : Text
  pub language : Text
  pub file_path : Text
  pub name : Text
  pub description : Text
  pub priority : ℤ
  pub timeout : ℤ
  pub queue_timeout : ℤ
  pub task_timeout : ℤ
  pub spec : JobSpec
  pub num_depends : ℤ
  pub vertex : ℕ
  pub in_group : Bool

abbrev pub from_dir : Text → Text → Text
from_dir dir [] = dir ++ b'/' ∷ []
from_dir dir (c ∷ cs) = if c == b'/' then c ∷ cs else dir ++ b'/' ∷ c ∷ cs

-- ReadScript
abbrev pub read_script : Outside → Text → Option Text
read_script out path = out.read_file path >>= out.encode_base64

abbrev pub script_of : Outside → Text → Bool → Option Text
script_of out path true = read_script out path
script_of out path false = some []

-- `if ( ptree.count( key ) > 0 )` with what stands under it, or else a default
abbrev pub if_given {ℓ} : {A : Type ℓ} → Ptree → Text → Option A → A → Option A
if_given t key read other = if ltb 0 (t.count key) then read else some other

-- "exec_unit_type": whether it is the host
abbrev pub unit_type : Text → Option Bool
unit_type v =
    if text_eq v (codes "cpu")
    then some false
    else (if text_eq v (codes "host") then some true else none)

-- ReadList with the callback that adds a value
unfoldable pub add_each : (Text → Permissions → Permissions) → List Text → Permissions → Permissions
add_each add [] p = p
add_each add (v ∷ vs) p = add_each add vs (add v p)

abbrev pub read_list :
    Ptree → Text → (Text → Permissions → Permissions) → Permissions → Option Permissions
read_list t key add p = if_given t key (t.get_list key >>= λ vs. some (add_each add vs p)) p

-- The four lists of a description
unfoldable pub read_permissions : Ptree → Option Permissions
unfolding add_each add_host add_host_to_blacklist add_group add_group_to_blacklist
read_permissions t = do
  p ← read_list t (codes "hosts") add_host no_limits
  q ← read_list t (codes "hosts_blacklist") add_host_to_blacklist p
  r ← read_list t (codes "groups") add_group q
  read_list t (codes "groups_blacklist") add_group_to_blacklist r

-- The "cron" of a description: whether it has one that the grammar accepts
abbrev pub read_cron : Outside → Ptree → Option Bool
read_cron out t =
    if_given t (codes "cron")
      (t.get_text (codes "cron") >>= λ c. guard (out.parses_cron c) >> some true) false

-- The "name" of a description; a cron job must have one.
abbrev pub read_name : Ptree → Bool → Option Text
read_name t cron =
    if ltb 0 (t.count (codes "name"))
    then t.get_text (codes "name")
    else (if cron then none else some [])

-- CreateJob( ptree )
unfoldable pub create_from : Outside → Text → Ptree → Option NewJob
unfolding read_permissions
create_from out dir t = do
  script_name ← t.get_text (codes "script")
  guard (not (is_empty script_name))
  let path = from_dir dir script_name
  send ← t.get_bool (codes "send_script")
  script ← script_of out path send
  language ← t.get_text (codes "language")
  priority ← t.get_int (codes "priority")
  timeout ← t.get_int (codes "job_timeout")
  queue_timeout ← t.get_int (codes "queue_timeout")
  task_timeout ← t.get_int (codes "task_timeout")
  failed ← t.get_int (codes "max_failed_nodes")
  executions ← t.get_int (codes "num_execution")
  cluster ← t.get_int (codes "max_cluster_instances")
  worker ← t.get_int (codes "max_worker_instances")
  exclusive ← t.get_bool (codes "exclusive")
  no_reschedule ← t.get_bool (codes "no_reschedule")
  at_worker ←
      if_given t (codes "max_exec_at_worker") (t.get_int (codes "max_exec_at_worker")) (negsuc 0)
  per_host ←
      if_given t (codes "exec_unit_type") (t.get_text (codes "exec_unit_type") >>= unit_type) false
  permissions ← read_permissions t
  cron ← read_cron out t
  name ← read_name t cron
  some (record {
    script = script;
    language = language;
    file_path = path;
    name = name;
    description = [];
    priority = priority;
    timeout = timeout;
    queue_timeout = queue_timeout;
    task_timeout = if ltb_ℤ task_timeout (pos 0) then negsuc 0 else task_timeout;
    spec = record {
      num_exec = executions;
      per_host = per_host;
      max_failed_nodes = failed;
      max_cluster_instances = cluster;
      max_worker_instances = worker;
      max_exec_at_worker = at_worker;
      exclusive = exclusive;
      no_reschedule = no_reschedule;
      has_cron = cron;
      permissions = permissions;
    };
    num_depends = pos 0;
    vertex = 0;
    in_group = false;
  })

-- HasJobName
abbrev pub has_job_name : Text → TextSet → Bool
has_job_name n names = if is_empty n then false else TextSet.contains n names

-- CreateJob( job_description, check_name_existance )
unfoldable pub create_job : Outside → Text → TextSet → Text → Bool → Option NewJob
unfolding create_from TextSet.contains
create_job out dir names text check = do
  t ← out.read_json text
  j ← create_from out dir t
  guard (not (check && has_job_name j.name names))
  some (record j { description = text })

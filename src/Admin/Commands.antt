-- ===== src/Admin/Commands.antt =====
-- The command classes of the admin tool `prun` and its CommandDispatcher: from a line of text to
-- the method and parameters of a request.
use prun.Base.{
  Option, none, some, List, [], ◌∷◌, Text, codes, text_eq, length, ◌%◌, ltb, if◌then◌else◌,
}
use prun.Base.Int.{ℤ}
use prun.Admin.Words.{words}
use prun.Admin.Numbers.{int}

pub data Value : Type 0 where
  text : Text → Value
  number : ℤ → Value
  texts : List Text → Value

-- `no_params` is the empty JSON array.
pub data Params : Type 0 where
  no_params : Params
  fields : List (Text × Value) → Params

pub record Message : Type 0 where
  pub method : Text
  pub params : Params

pub data Exception : Type 0 where
  index_error value_error odd_args network_error decode_error : Exception

-- A handler returns its message, or prints a complaint and raises again what it caught.
pub data Prepared : Type 0 where
  message : Message → Prepared
  failure : Text → Exception → Prepared

pub data Command : Type 0 where
  run stop stop_group stop_all add_hosts delete_hosts add_host_group : Command
  delete_host_group info stat jobs ls cron : Command

-- cmd.split()[1:]
unfoldable pub arguments : Text → List Text
arguments cmd = elim (words cmd) [ [] ↦ [] | w ∷ ws ↦ ws ]

abbrev pub simple : Text → Prepared
simple method = message (record { method = method; params = no_params })

abbrev pub with_field : Text → Text → Value → Prepared
with_field method name v = message (record { method = method; params = fields ((name, v) ∷ []) })

abbrev pub run_message : Text → Text → Message
run_message path alias = record {
  method = codes "run";
  params = fields ((codes "file", text path) ∷ (codes "alias", text alias) ∷ []);
}

-- `cmd.split()[1]` handed on as it is
abbrev pub text_argument : List Text → Text → Text → Text → Prepared
text_argument [] method name complaint = failure complaint index_error
text_argument (a ∷ as') method name complaint = with_field method name (text a)

abbrev pub converted : Option ℤ → Text → Text → Text → Prepared
converted none method name complaint = failure complaint value_error
converted (some n) method name complaint = with_field method name (number n)

-- `int(cmd.split()[1])`
abbrev pub int_argument : List Text → Text → Text → Text → Prepared
int_argument [] method name complaint = failure complaint index_error
int_argument (a ∷ as') method name complaint = converted (int a) method name complaint

abbrev pub run_arguments : List Text → Prepared
run_arguments [] = failure (codes "no file path given") index_error
run_arguments (path ∷ []) = message (run_message path [])
run_arguments (path ∷ alias ∷ more) = message (run_message path alias)

abbrev pub host_arguments : List Text → Prepared
host_arguments hosts =
    if ltb 0 (length hosts % 2)
    then failure (codes "invalid <host, group> arguments") odd_args
    else with_field (codes "add_hosts") (codes "hosts") (texts hosts)

-- handler.prepare(cmd), on the arguments of cmd
unfoldable pub prepare_arguments : Command → List Text → Prepared
prepare_arguments run as' = run_arguments as'
prepare_arguments stop as' =
    text_argument as' (codes "stop") (codes "job_id") (codes "invalid jobId argument")
prepare_arguments stop_group as' =
    int_argument as' (codes "stop_group") (codes "group_id") (codes "invalid groupId argument")
prepare_arguments stop_all as' = simple (codes "stop_all")
prepare_arguments add_hosts as' = host_arguments as'
prepare_arguments delete_hosts as' = with_field (codes "delete_hosts") (codes "hosts") (texts as')
prepare_arguments add_host_group as' =
    text_argument as' (codes "add_group") (codes "file") (codes "no file path given")
prepare_arguments delete_host_group as' =
    text_argument as' (codes "delete_group") (codes "group") (codes "invalid groupName argument")
prepare_arguments info as' =
    int_argument as' (codes "info") (codes "job_id") (codes "invalid jobId argument")
prepare_arguments stat as' = simple (codes "stat")
prepare_arguments jobs as' = simple (codes "jobs")
prepare_arguments ls as' = simple (codes "ls")
prepare_arguments cron as' = simple (codes "cron")

unfoldable pub prepare : Command → Text → Prepared
prepare c cmd = prepare_arguments c (arguments cmd)

-- CommandDispatcher.map_
abbrev pub command_map : List (Text × Command)
command_map =
    (codes "run", run)
    ∷ (codes "stop", stop)
    ∷ (codes "stopg", stop_group)
    ∷ (codes "stopall", stop_all)
    ∷ (codes "add", add_hosts)
    ∷ (codes "delete", delete_hosts)
    ∷ (codes "addg", add_host_group)
    ∷ (codes "deleteg", delete_host_group)
    ∷ (codes "info", info)
    ∷ (codes "stat", stat)
    ∷ (codes "jobs", jobs)
    ∷ (codes "ls", ls)
    ∷ (codes "cron", cron)
    ∷ []

unfoldable pub find_command : Text → List (Text × Command) → Option Command
find_command w [] = none
find_command w ((k, c) ∷ m) = if text_eq k w then some c else find_command w m

-- CommandDispatcher.get(command): the outer `none` is the IndexError of a blank line
unfoldable pub get : Text → Option (Option Command)
get cmd = elim (words cmd) [ [] ↦ none | w ∷ ws ↦ some (find_command w command_map) ]

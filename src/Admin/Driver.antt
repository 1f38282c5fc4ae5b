-- ===== src/Admin/Driver.antt =====
-- user_input and main of the admin tool `prun`.
use prun.Base.{Bool, ◌||◌, List, [], ◌∷◌, ◌++◌, Text, codes, text_eq, is_empty, if◌then◌else◌, map}
use prun.Admin.Words.{strip}
use prun.Admin.Session.{
  Network, Session, Output, line, Flow, done, exited, show, do_command, exec_command, next, catch,
}
use prun.Admin.Options.{Options, Parsed, options, usage, parse_opt}

-- The lines of print_help.
abbrev pub help_lines : List Text
help_lines =
    codes "Commands:"
    ∷ codes
        "  run /path/to/file [<job_alias>] -- run job, which described in '.job' or '.meta' file"
    ∷ codes "  stop <job_id>                   -- interrupt job execution"
    ∷ codes "  stop <job_name>                 -- interrupt job/group of jobs execution"
    ∷ codes "  stopg <group_id>                -- interrupt group of jobs execution"
    ∷ codes "  stopall                         -- interrupt all job execution on all hosts"
    ∷ codes
        "  add [<hostname> <groupname>]*   -- add host(s) with given hostname and hosts group name"
    ∷ codes "  delete <hostname>               -- delete host(s)"
    ∷ codes "  addg /path/to/file              -- add group of hosts, which described in a file"
    ∷ codes "  deleteg <groupname>             -- delete group of hosts"
    ∷ codes "  info <job_id>                   -- show job execution statistics"
    ∷ codes "  stat                            -- show master statistics"
    ∷ codes "  jobs                            -- show queued jobs info"
    ∷ codes "  ls                              -- show workers info"
    ∷ codes "  cron                            -- show cron jobs"
    ∷ codes "  exit, quit                      -- quit program"
    ∷ []

unfoldable pub print_help : Session → Session
print_help s = show (map line help_lines) s

-- user_prompt
abbrev pub prompt_lines : List Output
prompt_lines =
    line (codes "master admin v0.1") ∷ line (codes "print `help` for more information") ∷ []

abbrev pub connecting : Text → Output
connecting host = line (codes "connecting to master " ++ host ++ codes ":5557")

unfoldable pub is_quit : Text → Bool
is_quit t = text_eq t (codes "exit") || text_eq t (codes "quit")

abbrev pub start : Options → Session
start o = record {
  rpc_id = 0;
  sent = [];
  printed = map line o.printed ++ prompt_lines ++ connecting o.master_host ∷ [];
  slept = [];
}

abbrev pub usage_exit : Session
usage_exit = record {
  rpc_id = 0;
  sent = [];
  printed = line (codes "usage: prun [-c|--command <command>] [<master_host>]") ∷ [];
  slept = [];
}

module _ (net : Network) where
  -- The loop of user_input over the lines typed; their end is the EOFError. An exception leaves the
  -- loop, since the `try` stands around it.
  unfoldable pub user_loop : List Text → Session → Session × Flow
  unfolding is_quit
  user_loop [] s = (show (line (codes "\nEOF") ∷ []) s, done)
  user_loop (l ∷ rest) s =
      let t = strip l in
      let go_on = user_loop rest in
      if is_empty t
      then go_on s
      else (if is_quit t
          then (s, done)
          else (if text_eq t (codes "help")
              then go_on (print_help s)
              else (let (s', f) = do_command net t s in next f go_on s')))

  -- user_input
  unfoldable pub user_input : List Text → Session → Session × Flow
  user_input lines s = let (s', f) = user_loop lines s in catch f s'

  -- main behind its `Connection()`; its lines come from the terminal
  abbrev pub session : Options → List Text → Session → Session × Flow
  session o lines s =
      if is_empty o.command then user_input lines s else exec_command net o.command s

  -- `Connection()`: Fatal exits if the master cannot be reached.
  abbrev pub connect : Options → List Text → Session → Session × Flow
  connect o lines s =
      if net.connects
      then session o lines (show (line (codes "connected") ∷ []) s)
      else (show (line (codes "fatal: couldn't connect to master") ∷ []) s, exited)

  abbrev pub main_with : Parsed → List Text → Session × Flow
  main_with usage lines = (usage_exit, exited)
  main_with (options o) lines = connect o lines (start o)

  unfoldable pub main : List Text → List Text → Session × Flow
  main argv lines = main_with (parse_opt argv) lines

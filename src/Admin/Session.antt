-- ===== src/Admin/Session.antt =====
-- The state of a run of the admin tool `prun`: its connection, what it printed and how long it
-- slept; Connection.send, Master.do_command, exec_command and user_input.
use prun.Base.{
  ℕ, ◌+◌, Bool, false, Option, none, some, List, [], ◌∷◌, ◌++◌, Text, codes, text_eq, is_empty,
  if◌then◌else◌,
}
use prun.Base.Int.{ℤ, pos, negsuc}
use prun.Admin.Words.{words, strip, split_on}
use prun.Admin.Numbers.{int}
use prun.Admin.Commands.{
  Message, Exception, index_error, value_error, network_error, decode_error, Prepared, message,
  failure, Command, arguments, prepare, get,
}

-- One JSON-RPC request.
pub record Rpc : Type 0 where
  pub id : ℕ
  pub body : Message

-- What the socket gives back for a request, and what the JSON decoder makes of it.
pub data Answer : Type 0 where
  broken closed garbled neither : Answer
  result error : Text → Answer

-- The network, outside the program: whether the master can be reached, whether the request with an
-- id can be sent, and its answer.
pub record Network : Type 0 where
  pub connects : Bool
  pub accepts : ℕ → Bool
  pub answers : ℕ → Answer

pub data Output : Type 0 where
  line : Text → Output
  exception : Exception → Output

pub record Session : Type 0 where
  pub rpc_id : ℕ
  pub sent : List Rpc
  pub printed : List Output
  pub slept : List ℕ

-- How a statement ends. `exited` is the SystemExit of Fatal, which `except Exception` lets pass.
pub data Flow : Type 0 where
  done exited : Flow
  raised : Exception → Flow

abbrev pub show : List Output → Session → Session
show out s = record s { printed = s.printed ++ out }

-- Connection._receive and _on_response
abbrev pub on_response : Answer → List Output
on_response broken = exception network_error ∷ []
on_response closed = []
on_response garbled = exception decode_error ∷ []
on_response neither = []
on_response (result t) = line t ∷ []
on_response (error t) = line t ∷ []

abbrev pub couldnt_execute : Exception → List Output
couldnt_execute e = line (codes "error: couldn't execute command") ∷ exception e ∷ []

abbrev pub bad_sleep : Exception → Session → Session × Flow
bad_sleep e s = (show (line (codes "invalid sleep time argument") ∷ []) s, raised e)

abbrev pub sleep_for : Option ℤ → Session → Session × Flow
sleep_for none s = bad_sleep value_error s
sleep_for (some (negsuc n)) s = bad_sleep value_error s
sleep_for (some (pos n)) s = (record s { slept = s.slept ++ n ∷ [] }, done)

-- Command_Sleep.execute: time.sleep raises ValueError on a negative time
unfoldable pub sleep : Text → Session → Session × Flow
sleep cmd s = elim (arguments cmd) [ [] ↦ bad_sleep index_error s | a ∷ more ↦ sleep_for (int a) s ]

abbrev pub is_sleep : List Text → Bool
is_sleep [] = false
is_sleep (w ∷ ws) = text_eq w (codes "sleep")

abbrev pub next : Flow → (Session → Session × Flow) → Session → Session × Flow
next done k s = k s
next exited k s = (s, exited)
next (raised e) k s = (s, raised e)

abbrev pub catch : Flow → Session → Session × Flow
catch done s = (s, done)
catch exited s = (s, exited)
catch (raised e) s = (show (exception e ∷ []) s, done)

module _ (net : Network) where
  -- Connection.send
  unfoldable pub send : Message → Session → Session × Flow
  send msg s =
      let rpc : Rpc = record { id = s.rpc_id; body = msg } in
      let s' : Session = record s { rpc_id = s.rpc_id + 1 } in
      if net.accepts s.rpc_id
      then (
        show (on_response (net.answers s.rpc_id)) (record s' { sent = s.sent ++ rpc ∷ [] }),
        done,
      )
      else (show (line (codes "fatal: couldn't send command to master") ∷ []) s', exited)

  -- The `try` block of Master.do_command
  abbrev pub attempt : Prepared → Session → Session × Flow
  attempt (message msg) s = send msg s
  attempt (failure complaint e) s = (show (line complaint ∷ couldnt_execute e) s, done)

  -- Master.do_command
  abbrev pub dispatch : Option (Option Command) → Text → Session → Session × Flow
  dispatch none cmd s = (s, raised index_error)
  dispatch (some none) cmd s = (show (line (codes "unknown command: " ++ cmd) ∷ []) s, done)
  dispatch (some (some c)) cmd s = attempt (prepare c cmd) s

  unfoldable pub do_command : Text → Session → Session × Flow
  do_command cmd s = dispatch (get cmd) cmd s

  -- The body of exec_command's loop, for one piece between semicolons
  unfoldable pub exec_one : Text → Session → Session × Flow
  exec_one piece s =
      let c = strip piece in
      if is_empty c
      then (s, done)
      else (if is_sleep (words c) then sleep c (show (line c ∷ []) s) else do_command c s)

  -- The loop: an exception or an exit leaves it.
  unfoldable pub exec_all : List Text → Session → Session × Flow
  exec_all [] s = (s, done)
  exec_all (piece ∷ rest) s = let (s', f) = exec_one piece s in next f (exec_all rest) s'

  -- exec_command
  unfoldable pub exec_command : Text → Session → Session × Flow
  exec_command cmd s = let (s', f) = exec_all (split_on b';' cmd) s in catch f s'

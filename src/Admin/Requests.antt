-- ===== src/Admin/Requests.antt =====
-- The ids of the requests that a run of the admin tool `prun` sends.
use prun.Base.{
  Option, none, some, codes, text_eq, ℕ, zero, suc, ◌+◌, ◌≡◌, refl, List, [], ◌∷◌, ◌++◌, Text, map,
  length, length-append, arith, Bool-cases, ◌⊎◌, inl, inr, ◌∙◌, Bool, true, false, is_empty,
  if◌then◌else◌,
}
use prun.Admin.Words.{words, strip, split_on}
use prun.Admin.Commands.{
  Message, Command, Prepared, message, failure, index_error, arguments, prepare, get,
}
use prun.Admin.Numbers.{int}
use prun.Base.Int.{ℤ, pos, negsuc}
use native.Mathlib.Numerals.{add-one}
use prun.Admin.Options.{Parsed, options, usage, parse_opt}
use prun.Admin.Driver.{print_help, is_quit, user_loop, user_input, main_with, main}
use prun.Admin.Session.{
  Rpc, Network, Session, Output, Flow, done, exited, raised, show, send, attempt, dispatch,
  do_command, sleep, sleep_for, bad_sleep, is_sleep, exec_one, exec_all, exec_command, next, catch,
}

-- 0, 1, ..., n - 1
abbrev pub upto : ℕ → List ℕ
upto zero = []
upto (suc n) = upto n ++ n ∷ []

map-snoc :
    (rs : List Rpc) (r : Rpc) → map (λ q. q.id) (rs ++ r ∷ []) ≡ map (λ q. q.id) rs ++ r.id ∷ []
map-snoc [] r = refl
map-snoc (q ∷ rs) r = ground (arith, map-snoc rs r)

-- The counter after a run: it is ahead of the requests sent, by one, only where the program has
-- exited.
abbrev pub Counts : Flow → ℕ → ℕ → Type 0
Counts done n len = n ≡ len
Counts exited n len = (n ≡ len) ⊎ (n ≡ len + 1)
Counts (raised e) n len = n ≡ len

-- The requests sent are numbered from 0 in the order of sending.
pub record IsNumbered (s : Session) (f : Flow) : Type 0 where
  pub ids : map (λ q. q.id) s.sent ≡ upto (length s.sent)
  pub counter : Counts f s.rpc_id (length s.sent)

abbrev pub Numbers : Session × Flow → Type 0
Numbers r = IsNumbered r.0 r.1

show-IsNumbered :
    (out : List Output) {s : Session} {f : Flow} → IsNumbered s f → IsNumbered (show out s) f
show-IsNumbered out h = record { ids = h.ids; counter = h.counter }

snoc-ids :
    (rs : List Rpc) (r : Rpc)
    → map (λ q. q.id) rs ≡ upto (length rs)
    → r.id ≡ length rs
    → map (λ q. q.id) (rs ++ r ∷ []) ≡ upto (length (rs ++ r ∷ []))
snoc-ids rs r h k = map-snoc rs r ∙ cc (h, k, length-append rs (r ∷ []), add-one (length rs))

module _ (net : Network) where
  send-IsNumbered : (msg : Message) (s : Session) → IsNumbered s done → Numbers (send net msg s)
  unfolding send
  send-IsNumbered msg s h = elim (Bool-cases (net.accepts s.rpc_id)) [
    | inl e ↦ rw e (record {
      ids = snoc-ids s.sent (record { id = s.rpc_id; body = msg }) h.ids h.counter;
      counter =
          omega
            (arith, h.counter, length-append s.sent (record { id = s.rpc_id; body = msg } ∷ []));
    })
    | inr e ↦ rw e (record { ids = h.ids; counter = inr (omega (arith, h.counter)) })
  ]

  attempt-IsNumbered : (p : Prepared) (s : Session) → IsNumbered s done → Numbers (attempt net p s)
  attempt-IsNumbered (message msg) s h = send-IsNumbered msg s h
  attempt-IsNumbered (failure c e) s h = show-IsNumbered _ h

  dispatch-IsNumbered :
      (o : Option (Option Command)) (cmd : Text) (s : Session)
      → IsNumbered s done
      → Numbers (dispatch net o cmd s)
  dispatch-IsNumbered none cmd s h = record { ids = h.ids; counter = h.counter }
  dispatch-IsNumbered (some none) cmd s h = show-IsNumbered _ h
  dispatch-IsNumbered (some (some c)) cmd s h = attempt-IsNumbered (prepare c cmd) s h

  do_command-IsNumbered :
      (cmd : Text) (s : Session) → IsNumbered s done → Numbers (do_command net cmd s)
  unfolding do_command
  do_command-IsNumbered cmd s h = dispatch-IsNumbered (get cmd) cmd s h

  sleep_for-IsNumbered : (o : Option ℤ) (s : Session) → IsNumbered s done → Numbers (sleep_for o s)
  sleep_for-IsNumbered none s h = record { ids = h.ids; counter = h.counter }
  sleep_for-IsNumbered (some (pos n)) s h = record { ids = h.ids; counter = h.counter }
  sleep_for-IsNumbered (some (negsuc n)) s h = record { ids = h.ids; counter = h.counter }

  sleep-IsNumbered : (cmd : Text) (s : Session) → IsNumbered s done → Numbers (sleep cmd s)
  unfolding sleep
  sleep-IsNumbered cmd s h = go (arguments cmd)
    where
      go :
          (as' : List Text)
          → Numbers (elim as' [ [] ↦ bad_sleep index_error s | a ∷ more ↦ sleep_for (int a) s ])
      go [] = record { ids = h.ids; counter = h.counter }
      go (a ∷ more) = sleep_for-IsNumbered (int a) s h

  if-Numbers :
      (b : Bool) (x y : Session × Flow) → Numbers x → Numbers y → Numbers (if b then x else y)
  if-Numbers true x y hx hy = hx
  if-Numbers false x y hx hy = hy

  exec_one-IsNumbered :
      (piece : Text) (s : Session) → IsNumbered s done → Numbers (exec_one net piece s)
  unfolding exec_one
  exec_one-IsNumbered piece s h = if-Numbers (is_empty (strip piece)) _ _ h (
      if-Numbers (is_sleep (words (strip piece))) _ _
        (sleep-IsNumbered (strip piece) _ (show-IsNumbered _ h))
        (do_command-IsNumbered (strip piece) s h))

  next-IsNumbered :
      (k : Session → Session × Flow) (s : Session) (f : Flow)
      → ((t : Session) → IsNumbered t done → Numbers (k t))
      → IsNumbered s f
      → Numbers (next f k s)
  next-IsNumbered k s done keep h = keep s h
  next-IsNumbered k s exited keep h = h
  next-IsNumbered k s (raised e) keep h = h

  exec_all-IsNumbered :
      (pieces : List Text) (s : Session) → IsNumbered s done → Numbers (exec_all net pieces s)
  unfolding exec_all
  exec_all-IsNumbered [] s h = h
  exec_all-IsNumbered (piece ∷ rest) s h =
      next-IsNumbered (exec_all net rest) _ _ (exec_all-IsNumbered rest)
        (exec_one-IsNumbered piece s h)

catch-IsNumbered : (s : Session) (f : Flow) → IsNumbered s f → Numbers (catch f s)
catch-IsNumbered s done h = h
catch-IsNumbered s exited h = h
catch-IsNumbered s (raised e) h = record { ids = h.ids; counter = h.counter }

module _ (net : Network) where
  exec_command-IsNumbered :
      (cmd : Text) (s : Session) → IsNumbered s done → Numbers (exec_command net cmd s)
  unfolding exec_command
  exec_command-IsNumbered cmd s h =
      catch-IsNumbered _ _ (exec_all-IsNumbered net (split_on b';' cmd) s h)

  user_loop-IsNumbered :
      (lines : List Text) (s : Session) → IsNumbered s done → Numbers (user_loop net lines s)
  unfolding user_loop print_help
  user_loop-IsNumbered [] s h = show-IsNumbered _ h
  user_loop-IsNumbered (l ∷ rest) s h =
      let go_on = user_loop-IsNumbered rest in
      if-Numbers net (is_empty (strip l)) _ _ (go_on s h) (
        if-Numbers net (is_quit (strip l)) _ _ h (
          if-Numbers net (text_eq (strip l) (codes "help")) _ _ (go_on _ (show-IsNumbered _ h)) (
            next-IsNumbered net (user_loop net rest) _ _ go_on
              (do_command-IsNumbered net (strip l) s h))))

  user_input-IsNumbered :
      (lines : List Text) (s : Session) → IsNumbered s done → Numbers (user_input net lines s)
  unfolding user_input
  user_input-IsNumbered lines s h = catch-IsNumbered _ _ (user_loop-IsNumbered lines s h)

  main_with-IsNumbered : (p : Parsed) (lines : List Text) → Numbers (main_with net p lines)
  main_with-IsNumbered usage lines = record { ids = refl; counter = inl refl }
  main_with-IsNumbered (options o) lines =
      if-Numbers net net.connects _ _
        (if-Numbers net (is_empty o.command) _ _ (user_input-IsNumbered lines _ fresh)
          (exec_command-IsNumbered o.command _ fresh))
        (record { ids = refl; counter = inl refl })
    where
      fresh :
          {out : List Output}
          → IsNumbered (record { rpc_id = 0; sent = []; printed = out; slept = [] }) done
      fresh = record { ids = refl; counter = refl }

  -- Whatever the options, the lines typed and the network, the requests that a run sends carry the
  -- ids 0, 1, 2, ... in the order of sending; and the counter equals their number at the end, but for
  -- an exit, where it may be one ahead.
  pub main-IsNumbered : (argv lines : List Text) → Numbers (main net argv lines)
  unfolding main
  main-IsNumbered argv lines = main_with-IsNumbered (parse_opt argv) lines

-- ===== src/Admin/Sequence.antt =====
-- How the admin tool `prun` goes through a sequence of commands: exec_command over the pieces
-- between semicolons, user_input over the lines typed.
use prun.Base.{
  ◌≡◌, ◌≢◌, refl, ap, text_eq, codes, true, false, Option, none, some, List, [], ◌∷◌, ◌++◌, All,
  Text, arith, Bool-cases, inl, inr, ◌∙◌, is_empty, ◌==◌,
}
use mathlib.Core.Path.{fun_ext}
use prun.Admin.Words.{words, strip}
use prun.Admin.Words.Laws.{words-strip, words-ne-nil, words-nil, join_on, split_on-join_on}
use prun.Admin.Commands.{
  Exception, Prepared, message, failure, Command, arguments, prepare, prepare_arguments, get,
  find_command, command_map,
}
use prun.Admin.Session.{
  Network, Session, raised, send, attempt, dispatch, do_command, is_sleep, exec_one, exec_all,
  exec_command, catch,
}
use prun.Admin.Driver.{is_quit, user_loop, user_input}

get-words :
    (cmd w : Text) (ws : List Text)
    → words cmd ≡ w ∷ ws
    → (get cmd ≡ some (find_command w command_map)) × (arguments cmd ≡ ws)
unfolding get arguments
get-words cmd w ws e = (ground arith, ground arith)

dispatch-get :
    (net : Network) (cmd : Text) (c : Command) (as' : List Text) (s : Session)
    → get cmd ≡ some (some c)
    → arguments cmd ≡ as'
    → do_command net cmd s ≡ attempt net (prepare_arguments c as') s
unfolding do_command prepare
dispatch-get net cmd c as' s h k = rw (h, k)

module _ (net : Network) where
  strip-IsWord-ne :
      (piece w : Text) (ws : List Text) → words piece ≡ w ∷ ws → is_empty (strip piece) ≡ false
  strip-IsWord-ne piece w ws h = ground (arith, words-strip piece, words-nil)

  -- The loop body of exec_command does with a piece, whatever spaces it has around and between its
  -- words, what the handler that the dispatcher has for its first word does with the others, if the
  -- first word is not `sleep`.
  pub exec_one-command :
      (piece name : Text) (as' : List Text) (c : Command) (s : Session)
      → words piece ≡ name ∷ as'
      → text_eq name (codes "sleep") ≡ false
      → find_command name command_map ≡ some c
      → exec_one net piece s ≡ attempt net (prepare_arguments c as') s
  unfolding exec_one
  exec_one-command piece name as' c s h k l =
      let inner = words-strip piece ∙ h in
      let (found, args) = get-words (strip piece) name as' inner in
      rw (strip-IsWord-ne piece name as' h, inner, k)
        (dispatch-get net (strip piece) c as' s (found ∙ ap some l) args)

  -- An exec_command string of pieces joined by semicolons does the pieces one by one, in order; an
  -- exception that leaves the loop is printed and the rest is skipped.
  pub exec_command-join_on :
      (p : Text) (ps : List Text) (s : Session)
      → All (λ c. (c == b';') ≡ false) p
      → All (All (λ c. (c == b';') ≡ false)) ps
      → exec_command net (join_on b';' p ps) s
        ≡ catch (exec_all net (p ∷ ps) s).1 (exec_all net (p ∷ ps) s).0
  unfolding exec_command
  exec_command-join_on p ps s h hs = rw (split_on-join_on b';' p ps h hs)

  attempt-ne-raised : (p : Prepared) (s : Session) (e : Exception) → (attempt net p s).1 ≢ raised e
  unfolding send
  attempt-ne-raised (message msg) s e = ground arith
  attempt-ne-raised (failure c x) s e = ground arith

  dispatch-ne-raised :
      (o : Option Command) (cmd : Text) (s : Session) (e : Exception)
      → (dispatch net (some o) cmd s).1 ≢ raised e
  dispatch-ne-raised none cmd s e = ground arith
  dispatch-ne-raised (some c) cmd s e = attempt-ne-raised (prepare c cmd) s e

  get-some : (cmd : Text) → words cmd ≢ [] → (o : Option Command) × (get cmd ≡ some o)
  unfolding get
  get-some cmd h = go (words cmd) h
    where
      go :
          (ws : List Text)
          → ws ≢ []
          → (o : Option Command) × (elim ws [
            | [] ↦ none
            | w ∷ r ↦ some (find_command w command_map)
          ]
              ≡ some o)
      go [] k = absurd (k refl)
      go (w ∷ r) k = (find_command w command_map, refl)

  do_command-ne-raised :
      (cmd : Text) (s : Session) (e : Exception)
      → words cmd ≢ []
      → (do_command net cmd s).1 ≢ raised e
  unfolding do_command
  do_command-ne-raised cmd s e h =
      let (o, k) = get-some cmd h in rw k (dispatch-ne-raised o cmd s e)

  -- Of the pieces of exec_command only a sleep can raise: an unknown command, a missing or a bad
  -- argument are reported and the sequence goes on.
  pub exec_one-raised :
      (piece : Text) (s : Session) (e : Exception)
      → (exec_one net piece s).1 ≡ raised e
      → is_sleep (words piece) ≡ true
  unfolding exec_one
  exec_one-raised piece s e h = elim (Bool-cases (is_sleep (words (strip piece)))) [
    | inl yes' ↦ rw (words-strip piece) at yes'
    | inr no' ↦
        ground
          (arith, words-ne-nil piece, words-strip piece, do_command-ne-raised (strip piece) s e)
  ]

  quit-ne-nil : (t : Text) → is_quit t ≡ true → is_empty t ≡ false
  unfolding is_quit
  quit-ne-nil [] h = cc
  quit-ne-nil (c ∷ t) h = refl

  user_loop_quit :
      (before rest : List Text) (l : Text) (s : Session)
      → is_quit (strip l) ≡ true
      → user_loop net (before ++ l ∷ rest) s ≡ user_loop net (before ++ l ∷ []) s
  unfolding user_loop
  user_loop_quit [] rest l s h = rw (quit-ne-nil (strip l) h, h)
  user_loop_quit (k ∷ before) rest l s h = rw (fun_ext (λ t. user_loop_quit before rest l t h))

  -- What is typed behind `exit` or `quit` has no effect.
  pub user_input_quit :
      (before rest : List Text) (l : Text) (s : Session)
      → is_quit (strip l) ≡ true
      → user_input net (before ++ l ∷ rest) s ≡ user_input net (before ++ l ∷ []) s
  unfolding user_input
  user_input_quit before rest l s h = rw (user_loop_quit before rest l s h)

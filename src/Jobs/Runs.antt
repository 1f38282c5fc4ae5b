-- ===== src/Jobs/Runs.antt =====
-- What the command strings of jobs/autotest/test.py make the admin tool do.
use mathlib.Core.List.{map-append}
use prun.Base.{
  ℕ, zero, suc, ◌≡◌, refl, ap, sym, ◌∙◌, true, false, List, [], ◌∷◌, ◌++◌, All, Text, codes, map,
  replicate, arith, append_assoc, append-nil, ◌==◌,
}
use prun.Admin.Words.{strip, is_space, words, split_on}
use prun.Admin.Words.Laws.{IsWord, words-append, words-word, split_on-append}
use prun.Admin.Commands.{Message, run, run_message, prepare_arguments, find_command}
use prun.Admin.Session.{
  Rpc, Network, Session, Flow, done, send, exec_one, exec_all, exec_command, catch,
}
use prun.Admin.Sequence.{exec_one-command}
use prun.Jobs.Harness.{repeat_task, run_task}

repeat_task-append : (n : ℕ) (p t : Text) → repeat_task n p t ≡ t ++ repeat_task n p []
unfolding repeat_task
repeat_task-append zero p t = sym (append-nil t)
repeat_task-append (suc n) p t =
    repeat_task-append n p (t ++ p)
    ∙ append_assoc t p (repeat_task n p [])
    ∙ ap (λ u. t ++ u) (sym (repeat_task-append n p p))

repeat_task-suc :
    (n : ℕ) (q : Text)
    → repeat_task (suc n) (q ++ b';' ∷ []) [] ≡ q ++ b';' ∷ repeat_task n (q ++ b';' ∷ []) []
unfolding repeat_task
repeat_task-suc n q =
    repeat_task-append n (q ++ b';' ∷ []) (q ++ b';' ∷ [])
    ∙ append_assoc q (b';' ∷ []) (repeat_task n (q ++ b';' ∷ []) [])

repeat_task-zero : (p : Text) → repeat_task zero p [] ≡ []
unfolding repeat_task
repeat_task-zero p = refl

split_on-nil : (d : ℕ) → split_on d [] ≡ [] ∷ []
unfolding split_on
split_on-nil d = refl

-- The pieces of a repeated command string.
split_on-repeat_task :
    (n : ℕ) (q : Text)
    → All (λ c. (c == b';') ≡ false) q
    → split_on b';' (repeat_task n (q ++ b';' ∷ []) []) ≡ replicate n q ++ [] ∷ []
split_on-repeat_task zero q h =
    ap (split_on b';') (repeat_task-zero (q ++ b';' ∷ [])) ∙ split_on-nil b';'
split_on-repeat_task (suc n) q h =
    ap (split_on b';') (repeat_task-suc n q)
    ∙ split_on-append b';' q _ h
    ∙ ap (λ l. q ∷ l) (split_on-repeat_task n q h)

module _ (net : Network) (path : Text) where
  abbrev run_piece : Text
  run_piece = codes "run " ++ path

  run_piece-free : All (λ c. (c == b';') ≡ false) path → All (λ c. (c == b';') ≡ false) run_piece
  run_piece-free h = (refl, (refl, (refl, (refl, h))))

  run_piece-words : IsWord path → words run_piece ≡ codes "run" ∷ path ∷ []
  unfolding is_space
  run_piece-words h =
      words-append (codes "run") path (ground arith) ∙ ap (λ l. codes "run" ∷ l) (words-word path h)

  exec_one-run :
      (s : Session) → IsWord path → exec_one net run_piece s ≡ send net (run_message path []) s
  unfolding prepare_arguments find_command
  exec_one-run s h =
      exec_one-command net run_piece (codes "run") (path ∷ []) run s (run_piece-words h) refl refl

  abbrev Sent : List Message → Session × Flow → Type 0
  Sent ms r = (map (λ q. q.body) r.0.sent ≡ ms) × (r.1 ≡ done)

  send-Sent :
      (msg : Message) (s : Session)
      → ((i : ℕ) → net.accepts i ≡ true)
      → Sent (map (λ q. q.body) s.sent ++ msg ∷ []) (send net msg s)
  unfolding send
  send-Sent msg s h = rw (h s.rpc_id) (map-append (λ (q : Rpc). q.body) s.sent _, refl)

  exec_all-blank : (s : Session) → exec_all net ([] ∷ []) s ≡ (s, done)
  unfolding exec_all exec_one strip
  exec_all-blank s = refl

  exec_all-cons :
      (p : Text) (rest : List Text) (s : Session) (r : Session × Flow)
      → exec_one net p s ≡ r
      → r.1 ≡ done
      → exec_all net (p ∷ rest) s ≡ exec_all net rest r.0
  unfolding exec_all
  exec_all-cons p rest s r e f = rw (e, f)

  exec_all-runs :
      (n : ℕ) (s : Session)
      → IsWord path
      → ((i : ℕ) → net.accepts i ≡ true)
      → Sent
          (map (λ q. q.body) s.sent ++ replicate n (run_message path []))
          (exec_all net (replicate n run_piece ++ [] ∷ []) s)
  exec_all-runs zero s w h = rw exec_all-blank (sym (append-nil _), refl)
  exec_all-runs (suc n) s w h =
      let msg = run_message path [] in
      let r = send net msg s in
      let (bodies, ends) = send-Sent msg s h in
      let rest = replicate n run_piece ++ [] ∷ [] in
      let (more, ends') = exec_all-runs n r.0 w h in
      let same = exec_all-cons run_piece rest s r (exec_one-run s w) ends in
      (
        ap (λ (t : Session × Flow). map (λ q. q.body) t.0.sent) same
            ∙ more
            ∙ ap (λ l. l ++ replicate n msg) bodies
            ∙ append_assoc (map (λ q. q.body) s.sent) (msg ∷ []) (replicate n msg),
        ap (λ (t : Session × Flow). t.1) same ∙ ends',
      )

  catch-Sent : (ms : List Message) (r : Session × Flow) → Sent ms r → Sent ms (catch r.1 r.0)
  catch-Sent ms r h = rw h.1 (h.0, refl)

-- The string that a load test builds with `for i in range(0, n): task += 'run ' + jobPath + ';'`
-- makes the admin tool send exactly `n` requests to run that job, in addition to those sent before,
-- if the path is one word without a semicolon and the master accepts every request; and the tool
-- does not exit.
pub exec_command-run_task :
    (net : Network) (n : ℕ) (path : Text) (s : Session)
    → IsWord path
    → All (λ c. (c == b';') ≡ false) path
    → ((i : ℕ) → net.accepts i ≡ true)
    → (map (λ q. q.body) (exec_command net (run_task n path) s).0.sent
        ≡ map (λ q. q.body) s.sent ++ replicate n (run_message path []))
      × ((exec_command net (run_task n path) s).1 ≡ done)
unfolding exec_command run_task
exec_command-run_task net n path s w free h =
    rw (split_on-repeat_task n (run_piece net path) (run_piece-free net path free))
      (catch-Sent net path _ _ (exec_all-runs net path n s w h))

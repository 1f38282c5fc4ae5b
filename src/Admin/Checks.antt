-- ===== src/Admin/Checks.antt =====
-- Tests of the model of the admin tool `prun`, and its theorems at concrete inputs.
use prun.Base.{◌≡◌, refl, List, [], ◌∷◌, ◌++◌, codes, arith, true}
use prun.Admin.Words.{words, strip, is_space}
use prun.Admin.Numbers.{int}
use prun.Admin.Commands.{arguments, value_error}
use prun.Admin.Session.{Network, Answer, Session, raised, sleep, exec_one}
use prun.Admin.Options.{options, classify, parse_opt}
use prun.Admin.Driver.{main}
use prun.Admin.Requests.{Numbers, main-IsNumbered}
use prun.Admin.Spellings.{Choice, short_joined, long_next, spell_all, parse_opt-spell_all}

abbrev net : Network
net = record { connects = true; accepts = λ n. true; answers = λ n. Answer.closed }

abbrev fresh : Session
fresh = record { rpc_id = 0; sent = []; printed = []; slept = [] }

main-IsNumbered_example : Numbers (main net (codes "-c" ∷ codes "run a.job; stat" ∷ []) [])
main-IsNumbered_example = main-IsNumbered net (codes "-c" ∷ codes "run a.job; stat" ∷ []) []

sleep_raises : (exec_one net (codes " sleep x") fresh).1 ≡ raised value_error
unfolding exec_one sleep int strip words is_space arguments
sleep_raises = refl

abbrev choices : List Choice
choices = (short_joined, codes "stat") ∷ (long_next, codes "jobs") ∷ []

parse_opt-spell_all_example :
    parse_opt (spell_all choices ++ codes "node1" ∷ [])
    ≡ options (record {
      master_host = codes "node1";
      command = codes "jobs";
      printed = codes "stat" ∷ codes "jobs" ∷ [];
    })
unfolding classify
parse_opt-spell_all_example = parse_opt-spell_all choices (codes "node1") [] (ground arith) refl

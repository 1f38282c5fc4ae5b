-- ===== src/Jobs/Checks.antt =====
-- Tests of the models of the job scripts, and their theorems at concrete inputs.
use prun.Base.{ℕ, ◌+◌, ◌*◌, ◌%◌, ◌<◌, ◌≡◌, refl, ap, true, [], ◌∷◌, arith}
use prun.Admin.Session.{Network, Answer, Session}
use prun.Jobs.Simple.{isqrt, none_divides, is_simple, collect_simples, is_simple-square}

-- Among the first numbers 9, 15, 25 and 35 are taken for simple, and 2 is not.
simples_below_40 :
    collect_simples 39 1 []
    ≡ 1 ∷ 3 ∷ 5 ∷ 7 ∷ 9 ∷ 11 ∷ 13 ∷ 15 ∷ 17 ∷ 19 ∷ 23 ∷ 25 ∷ 29 ∷ 31 ∷ 35 ∷ 37 ∷ []
unfolding collect_simples is_simple isqrt none_divides
simples_below_40 = refl

odd_below_5 : (j : ℕ) → 3 + 2 * j < 5 → j ≡ 0
odd_below_5 j h = omega arith

is_simple-square_example : is_simple 25 ≡ true
is_simple-square_example =
    is_simple-square 5 refl
      (λ j k e. omega (arith, ap (λ (x : ℕ). 25 % (3 + 2 * x)) (odd_below_5 j k)))

accepts_35 : is_simple 35 ≡ true
unfolding is_simple isqrt none_divides
accepts_35 = refl

abbrev net : Network
net = record { connects = true; accepts = λ n. true; answers = λ n. Answer.closed }

abbrev fresh : Session
fresh = record { rpc_id = 0; sent = []; printed = []; slept = [] }

-- ===== src/Admin/Numbers.antt =====
-- Python's int(text) on a word, as the admin tool `prun` and node/node.py use it. The digits are
-- the ASCII ones; Python 3 also takes those of other scripts.
use prun.Base.{
  ℕ, ◌+◌, ◌-◌, ◌*◌, ◌≡◌, refl, Bool, true, false, ◌&&◌, Option, none, some, [], ◌∷◌, Text, codes,
  ◌==◌, leb, if◌then◌else◌,
}
use prun.Base.Int.{ℤ, pos, negsuc, neg_ℕ}

is_digit : ℕ → Bool
is_digit c = leb b'0' c && leb c b'9'

-- What follows a digit: digits, each perhaps behind one underscore.
digits_from : ℕ → Text → Option ℕ
unfolding is_digit
digits_from n [] = some n
digits_from n (c ∷ []) = if is_digit c then some (n * 10 + (c - b'0')) else none
digits_from n (c ∷ d ∷ s) = elim (is_digit c) [
  | true ↦ digits_from (n * 10 + (c - b'0')) (d ∷ s)
  | false ↦ elim (c == b'_' && is_digit d) [
    | true ↦ digits_from (n * 10 + (d - b'0')) s
    | false ↦ none
  ]
]

abbrev digits : Text → Option ℕ
unfolding digits_from
digits [] = none
digits (c ∷ s) = if is_digit c then digits_from (c - b'0') s else none

abbrev signed : (ℕ → ℤ) → Option ℕ → Option ℤ
signed f none = none
signed f (some n) = some (f n)

-- int(word): `none` is its ValueError
unfoldable pub int : Text → Option ℤ
unfolding digits
int [] = none
int (c ∷ s) =
    if c == b'-'
    then signed neg_ℕ (digits s)
    else (if c == b'+' then signed pos (digits s) else signed pos (digits (c ∷ s)))

int_tests :
    (int (codes "42") ≡ some (pos 42))
    × (int (codes "-7") ≡ some (negsuc 6))
    × (int (codes "1_000") ≡ some (pos 1000))
    × (int (codes "1__0") ≡ none)
    × (int (codes "4x") ≡ none)
unfolding int
int_tests = (refl, refl, refl, refl, refl)

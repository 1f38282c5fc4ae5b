-- ===== src/Admin/Words.antt =====
-- Python's str.split(), str.strip() and str.split(';') as the admin tool `prun` uses them.
pub mod Laws
use prun.Base.{
  ℕ, Bool, true, false, ◌||◌, ◌&&◌, List, [], ◌∷◌, Text, ◌==◌, leb, is_empty, if◌then◌else◌,
}

-- The characters of which Python's str.isspace() is true.
unfoldable pub is_space : ℕ → Bool
is_space c =
    (leb 9 c && leb c 13)
    || (leb 28 c && leb c 32)
    || c == 0x85
    || c == 0xa0
    || c == 0x1680
    || (leb 0x2000 c && leb c 0x200a)
    || c == 0x2028
    || c == 0x2029
    || c == 0x202f
    || c == 0x205f
    || c == 0x3000

abbrev pub cons_word : Text → List Text → List Text
cons_word [] ws = ws
cons_word (c ∷ w) ws = (c ∷ w) ∷ ws

-- The run of characters up to the first space, perhaps empty, and the words behind it.
unfoldable pub run_and_words : Text → Text × List Text
run_and_words [] = ([], [])
run_and_words (c ∷ s) =
    let (w, ws) = run_and_words s in if is_space c then ([], cons_word w ws) else (c ∷ w, ws)

-- s.split()
unfoldable pub words : Text → List Text
unfolding run_and_words
words s = let (w, ws) = run_and_words s in cons_word w ws

unfoldable pub lstrip : Text → Text
lstrip [] = []
lstrip (c ∷ s) = if is_space c then lstrip s else c ∷ s

unfoldable pub rstrip : Text → Text
rstrip [] = []
rstrip (c ∷ s) = let r = rstrip s in if is_space c && is_empty r then [] else c ∷ r

-- s.strip()
unfoldable pub strip : Text → Text
unfolding lstrip rstrip
strip s = rstrip (lstrip s)

abbrev pub cons_head : ℕ → List Text → List Text
cons_head c [] = (c ∷ []) ∷ []
cons_head c (w ∷ ws) = (c ∷ w) ∷ ws

-- s.split(d), for one character d
unfoldable pub split_on : ℕ → Text → List Text
split_on d [] = [] ∷ []
split_on d (c ∷ s) = let r = split_on d s in if c == d then [] ∷ r else cons_head c r

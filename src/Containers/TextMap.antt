-- ===== src/Containers/TextMap.antt =====
-- std::map<std::string, V>: entries in the order of their keys, of which each occurs once.
use prun.Base.{
  Bool, true, false, ◌&&◌, ◌||◌, Option, none, some, List, [], ◌∷◌, Text, text_eq, ltb, ◌==◌,
  if◌then◌else◌,
}

-- The order of std::string
unfoldable pub text_ltb : Text → Text → Bool
text_ltb s [] = false
text_ltb [] (d ∷ t) = true
text_ltb (c ∷ s) (d ∷ t) = ltb c d || (c == d && text_ltb s t)

abbrev pub TextMap : Type 0 → Type 0
TextMap V = List (Text × V)

module _ {V : Type 0} where
  -- operator[]: the value of a key, which `new` is if there is none yet, changed by `f`
  unfoldable pub change : Text → V → (V → V) → TextMap V → TextMap V
  unfolding text_ltb
  change k new f [] = (k, f new) ∷ []
  change k new f ((i, v) ∷ m) =
      let rest = change k new f m in
      if text_eq k i
      then (i, f v) ∷ m
      else (if text_ltb k i then (k, f new) ∷ (i, v) ∷ m else (i, v) ∷ rest)

  unfoldable pub find : Text → TextMap V → Option V
  find k [] = none
  find k ((i, v) ∷ m) = if text_eq k i then some v else find k m

  unfoldable pub erase : Text → TextMap V → TextMap V
  erase k [] = []
  erase k ((i, v) ∷ m) = let rest = erase k m in if text_eq k i then m else (i, v) ∷ rest

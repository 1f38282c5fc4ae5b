-- ===== src/Containers/TextSet.antt =====
-- std::set<std::string>, of which the program reads membership and size only: a list without
-- repetition, in any order.
use prun.Base.{
  ◌+◌, ◌≡◌, Bool, true, false, not, ◌&&◌, ◌||◌, List, [], ◌∷◌, length, Text, text_eq, text_eq_iff,
  if◌then◌else◌, arith,
}

abbrev pub TextSet : Type 0
TextSet = List Text

unfoldable pub contains : Text → TextSet → Bool
contains x [] = false
contains x (y ∷ s) = text_eq y x || contains x s

-- insert( x ): the set, and whether x is new (`.second`)
unfoldable pub insert : Text → TextSet → TextSet × Bool
unfolding contains
insert x s = if contains x s then (s, false) else (x ∷ s, true)

unfoldable pub erase : Text → TextSet → TextSet
erase x [] = []
erase x (y ∷ s) = let rest = erase x s in if text_eq y x then rest else y ∷ rest

pub contains-insert :
    (x z : Text) (s : TextSet) → contains z (insert x s).0 ≡ (text_eq x z || contains z s)
unfolding insert contains
contains-insert x z s = ground (arith, text_eq_iff x z)

pub insert_new : (x : Text) (s : TextSet) → (insert x s).1 ≡ not (contains x s)
unfolding insert
insert_new x s = ground arith

pub length-insert :
    (x : Text) (s : TextSet) → length (insert x s).0 ≡ length s + (if contains x s then 0 else 1)
unfolding insert
length-insert x s = ground arith

pub contains-erase :
    (x z : Text) (s : TextSet) → contains z (erase x s) ≡ (not (text_eq x z) && contains z s)
unfolding erase contains
contains-erase x z [] = ground arith
contains-erase x z (y ∷ s) =
    ground (arith, contains-erase x z s, text_eq_iff x z, text_eq_iff y x, text_eq_iff y z)

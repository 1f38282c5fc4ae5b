-- ===== src/Containers/IntSet.antt =====
-- std::set<int>: an ascending list. The keys of the master's sets, task and job ids, are not
-- negative where they are stored.
use prun.Base.{
  ℕ, suc, ◌≤◌, ◌<◌, ◌≡◌, refl, Bool, true, false, not, ◌&&◌, ◌||◌, List, [], ◌∷◌, All, length, ◌==◌,
  ltb, if◌then◌else◌, arith,
}

abbrev pub IntSet : Type 0
IntSet = List ℕ

unfoldable pub contains : ℕ → IntSet → Bool
contains x [] = false
contains x (y ∷ s) = y == x || contains x s

unfoldable pub insert : ℕ → IntSet → IntSet
insert x [] = x ∷ []
insert x (y ∷ s) =
    let rest = insert x s in if ltb x y then x ∷ y ∷ s else (if y == x then y ∷ s else y ∷ rest)

unfoldable pub erase : ℕ → IntSet → IntSet
erase x [] = []
erase x (y ∷ s) = let rest = erase x s in if y == x then s else y ∷ rest

-- Strictly ascending, as a set is kept.
abbrev pub Ascending : IntSet → Type 0
Ascending [] = Unit
Ascending (y ∷ s) = All (λ z. y < z) s × Ascending s

pub contains-insert : (x z : ℕ) (s : IntSet) → contains z (insert x s) ≡ (x == z || contains z s)
unfolding contains insert
contains-insert x z [] = refl
contains-insert x z (y ∷ s) = ground (arith, contains-insert x z s)

All-insert : (b x : ℕ) (s : IntSet) → b < x → All (λ z. b < z) s → All (λ z. b < z) (insert x s)
unfolding insert
All-insert b x [] h k = (h, tt)
All-insert b x (y ∷ s) h k = ground (arith, All-insert b x s)

All-trans : (a b : ℕ) (s : IntSet) → a < b → All (λ z. b < z) s → All (λ z. a < z) s
All-trans a b [] h k = tt
All-trans a b (y ∷ s) h k = (omega arith, All-trans a b s h k.1)

pub insert-Ascending : (x : ℕ) (s : IntSet) → Ascending s → Ascending (insert x s)
unfolding insert
insert-Ascending x [] h = (tt, tt)
insert-Ascending x (y ∷ s) h =
    ground (arith, insert-Ascending x s, All-insert y x s, All-trans x y s)

-- A key below all others is not there.
contains-low : (x b : ℕ) (s : IntSet) → x ≤ b → All (λ z. b < z) s → contains x s ≡ false
unfolding contains
contains-low x b [] h k = refl
contains-low x b (y ∷ s) h k = ground (arith, contains-low x b s)

All-erase : (b x : ℕ) (s : IntSet) → All (λ z. b < z) s → All (λ z. b < z) (erase x s)
unfolding erase
All-erase b x [] k = tt
All-erase b x (y ∷ s) k = ground (arith, All-erase b x s)

pub erase-Ascending : (x : ℕ) (s : IntSet) → Ascending s → Ascending (erase x s)
unfolding erase
erase-Ascending x [] h = tt
erase-Ascending x (y ∷ s) h = ground (arith, erase-Ascending x s, All-erase y x s)

pub contains-erase :
    (x z : ℕ) (s : IntSet) → Ascending s → contains z (erase x s) ≡ (not (x == z) && contains z s)
unfolding contains erase
contains-erase x z [] h = ground arith
contains-erase x z (y ∷ s) h = ground (arith, contains-erase x z s, contains-low z y s)

pub length-insert :
    (x : ℕ) (s : IntSet)
    → Ascending s
    → length (insert x s) ≡ (if contains x s then length s else suc (length s))
unfolding insert contains
length-insert x [] h = refl
length-insert x (y ∷ s) h = ground (arith, length-insert x s, contains-low x y s)

length-erase :
    (x : ℕ) (s : IntSet)
    → length s ≡ (if contains x s then suc (length (erase x s)) else length (erase x s))
unfolding erase contains
length-erase x [] = refl
length-erase x (y ∷ s) = ground (arith, length-erase x s)

-- A key that is there leaves the set as it is.
insert_idem : (x : ℕ) (s : IntSet) → Ascending s → contains x s ≡ true → insert x s ≡ s
unfolding insert contains
insert_idem x [] h k = cc
insert_idem x (y ∷ s) h k = ground (arith, insert_idem x s, contains-low x y s)

pub length-erase_self :
    (x : ℕ) (s : IntSet) → contains x s ≡ true → length s ≡ suc (length (erase x s))
length-erase_self x s h = ground (arith, length-erase x s)

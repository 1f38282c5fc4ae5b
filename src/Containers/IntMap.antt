-- ===== src/Containers/IntMap.antt =====
-- std::map<int64_t, V>: an ascending list of pairs. `put` is `m[k] = v`, `erase` removes a key.
use prun.Base.{
  ℕ, ◌≤◌, ◌<◌, ◌≡◌, refl, Option, none, some, List, [], ◌∷◌, ◌==◌, ltb, if◌then◌else◌, arith,
}

abbrev pub IntMap {ℓ} : Type ℓ → Type ℓ
IntMap V = List (ℕ × V)

module _ {ℓ} {V : Type ℓ} where
  unfoldable pub find : ℕ → IntMap V → Option V
  find k [] = none
  find k ((j, v) ∷ m) = if j == k then some v else find k m

  unfoldable pub put : ℕ → V → IntMap V → IntMap V
  put k v [] = (k, v) ∷ []
  put k v ((j, w) ∷ m) =
      let rest = put k v m in
      if ltb k j then (k, v) ∷ (j, w) ∷ m else (if j == k then (k, v) ∷ m else (j, w) ∷ rest)

  unfoldable pub erase : ℕ → IntMap V → IntMap V
  erase k [] = []
  erase k ((j, v) ∷ m) = let rest = erase k m in if j == k then m else (j, v) ∷ rest

  abbrev pub KeysAbove : ℕ → IntMap V → Type 0
  KeysAbove b [] = Unit
  KeysAbove b ((j, v) ∷ m) = (b < j) × KeysAbove b m

  -- The keys are strictly ascending, as a map keeps them.
  abbrev pub Ascending : IntMap V → Type 0
  Ascending [] = Unit
  Ascending ((j, v) ∷ m) = KeysAbove j m × Ascending m

  pub find-put :
      (k j : ℕ) (v : V) (m : IntMap V) → find j (put k v m) ≡ (if k == j then some v else find j m)
  unfolding find put
  find-put k j v [] = refl
  find-put k j v ((i, w) ∷ m) = ground (arith, find-put k j v m)

  KeysAbove-put : (b k : ℕ) (v : V) (m : IntMap V) → b < k → KeysAbove b m → KeysAbove b (put k v m)
  unfolding put
  KeysAbove-put b k v [] h a = (h, tt)
  KeysAbove-put b k v ((i, w) ∷ m) h a = ground (arith, KeysAbove-put b k v m)

  KeysAbove-trans : (a b : ℕ) (m : IntMap V) → a < b → KeysAbove b m → KeysAbove a m
  KeysAbove-trans a b [] h k = tt
  KeysAbove-trans a b ((i, w) ∷ m) h k = (omega arith, KeysAbove-trans a b m h k.1)

  pub put-Ascending : (k : ℕ) (v : V) (m : IntMap V) → Ascending m → Ascending (put k v m)
  unfolding put
  put-Ascending k v [] h = (tt, tt)
  put-Ascending k v ((i, w) ∷ m) h =
      ground (arith, put-Ascending k v m, KeysAbove-put i k v m, KeysAbove-trans k i m)

  KeysAbove-erase : (b k : ℕ) (m : IntMap V) → KeysAbove b m → KeysAbove b (erase k m)
  unfolding erase
  KeysAbove-erase b k [] a = tt
  KeysAbove-erase b k ((i, w) ∷ m) a = ground (arith, KeysAbove-erase b k m)

  pub erase-Ascending : (k : ℕ) (m : IntMap V) → Ascending m → Ascending (erase k m)
  unfolding erase
  erase-Ascending k [] h = tt
  erase-Ascending k ((i, w) ∷ m) h = ground (arith, erase-Ascending k m, KeysAbove-erase i k m)

  -- A key that is not above the bound of all keys is not there.
  pub find-low : (k b : ℕ) (m : IntMap V) → k ≤ b → KeysAbove b m → find k m ≡ none
  unfolding find
  find-low k b [] h a = refl
  find-low k b ((i, w) ∷ m) h a = ground (arith, find-low k b m)

  pub find-erase :
      (k j : ℕ) (m : IntMap V)
      → Ascending m
      → find j (erase k m) ≡ (if k == j then none else find j m)
  unfolding find erase
  find-erase k j [] h = ground arith
  find-erase k j ((i, w) ∷ m) h = ground (arith, find-erase k j m, find-low j i m)

-- ===== src/Master/Timeouts/Deadlines.antt =====
-- When a callback of the TimeoutManager is called (master/timeout_manager.cpp).
use prun.Base.{
  ℕ, ◌+◌, ◌*◌, ◌≤◌, ◌<◌, ◌≡◌, refl, ◌∙◌, true, false, List, [], ◌∷◌, ltb, if◌then◌else◌, All, arith,
  Bool-cases, inl, inr,
}
use prun.Base.Int.{ℤ, pos, pos_part, ltb_ℤ}
use prun.Master.Timeouts.{Callback, TimeToCallback, emplace, push, check_timeouts}

-- The times are ascending, as the multimap keeps them.
abbrev pub Ascending : TimeToCallback → Type 0
Ascending [] = Unit
Ascending ((t, c) ∷ l) = All (λ e. t ≤ e.0) l × Ascending l

-- The callbacks that are due
unfoldable pub due : ℕ → TimeToCallback → List Callback
due now [] = []
due now ((t, c) ∷ l) = let rest = due now l in if ltb now t then rest else c ∷ rest

-- The entries that are not due
unfoldable pub later : ℕ → TimeToCallback → TimeToCallback
later now [] = []
later now ((t, c) ∷ l) = let rest = later now l in if ltb now t then (t, c) ∷ rest else rest

none_due :
    (now : ℕ) (l : TimeToCallback) → All (λ e. now < e.0) l → (due now l ≡ []) × (later now l ≡ l)
unfolding due later
none_due now [] h = (refl, refl)
none_due now ((t, c) ∷ l) h = ground (arith, none_due now l)

All-later :
    (now t : ℕ) (l : TimeToCallback) → now < t → All (λ e. t ≤ e.0) l → All (λ e. now < e.0) l
All-later now t [] h a = tt
All-later now t ((u, c) ∷ l) h a = ground (arith, All-later now t l)

-- When the times are ascending, CheckTimeouts calls all callbacks that are due, in the order of
-- their times, and no others; the others stay.
pub check_timeouts-due :
    (now : ℕ) (l : TimeToCallback) → Ascending l → check_timeouts now l ≡ (due now l, later now l)
unfolding check_timeouts due later
check_timeouts-due now [] a = refl
check_timeouts-due now ((t, c) ∷ l) a = elim (Bool-cases (ltb now t)) [
  | inl e ↦ let (d, r) = none_due now l (All-later now t l (ground arith) a.0) in rw (e, d, r) refl
  | inr e ↦ rw (e, check_timeouts-due now l a.1) refl
]

All-emplace :
    (P : ℕ × Callback → Type 0) (t : ℕ) (c : Callback) (l : TimeToCallback)
    → P (t, c)
    → All P l
    → All P (emplace t c l)
unfolding emplace
All-emplace P t c [] p h = (p, tt)
All-emplace P t c ((u, d) ∷ l) p h = elim (Bool-cases (ltb t u)) [
  | inl e ↦ rw e (p, h)
  | inr e ↦ rw e (h.0, All-emplace P t c l p h.1)
]

above : (t u : ℕ) (l : TimeToCallback) → t ≤ u → All (λ e. u ≤ e.0) l → All (λ e. t ≤ e.0) l
above t u [] h a = tt
above t u ((v, d) ∷ l) h a = ground (arith, above t u l)

emplace-Ascending :
    (t : ℕ) (c : Callback) (l : TimeToCallback) → Ascending l → Ascending (emplace t c l)
unfolding emplace
emplace-Ascending t c [] a = (tt, tt)
emplace-Ascending t c ((u, d) ∷ l) a = elim (Bool-cases (ltb t u)) [
  | inl e ↦ rw e ((ground arith, above t u l (ground arith) a.0), a)
  | inr e ↦ rw e (All-emplace (λ e. u ≤ e.0) t c l (ground arith) a.0, emplace-Ascending t c l a.1)
]

-- A list with one more element
pub data Inserted (c : Callback) : List Callback → List Callback → Type 0 where
  here : (l : List Callback) → Inserted c l (c ∷ l)
  there : (d : Callback) (l r : List Callback) → Inserted c l r → Inserted c (d ∷ l) (d ∷ r)

module _ (now t : ℕ) (c : Callback) where
  later-emplace :
      (l : TimeToCallback)
      → later now (emplace t c l) ≡ (if ltb now t then emplace t c (later now l) else later now l)
  unfolding emplace later
  later-emplace [] = ground arith
  later-emplace ((u, d) ∷ l) = ground (arith, later-emplace l)

  not_yet : (l : TimeToCallback) → ltb now t ≡ true → due now (emplace t c l) ≡ due now l
  unfolding emplace due
  not_yet [] h = rw h refl
  not_yet ((u, d) ∷ l) h = elim (Bool-cases (ltb t u)) [
    | inl e ↦ rw (e, h) refl
    | inr e ↦ rw (e, not_yet l h) refl
  ]

  due_now :
      (l : TimeToCallback) → ltb now t ≡ false → Inserted c (due now l) (due now (emplace t c l))
  unfolding emplace due
  due_now [] h = rw h (here [])
  due_now ((u, d) ∷ l) h = elim (Bool-cases (ltb t u)) [
    | inl e ↦ rw (e, h) (here (due now ((u, d) ∷ l)))
    | inr e ↦ elim (Bool-cases (ltb now u)) [
      | inl g ↦ rw (e, g) (due_now l h)
      | inr g ↦ rw (e, g) (there d (due now l) (due now (emplace t c l)) (due_now l h))
    ]
  ]

-- What CheckTimeouts does with a callback that was pushed and is due, or is not due yet
pub data Pushed (now deadline : ℕ) (c : Callback) (l m : TimeToCallback) : Type 0 where
  waits :
      now < deadline
      → (check_timeouts now m).0 ≡ (check_timeouts now l).0
      → (check_timeouts now m).1 ≡ emplace deadline c (check_timeouts now l).1
      → Pushed now deadline c l m
  called :
      deadline ≤ now
      → Inserted c (check_timeouts now l).0 (check_timeouts now m).0
      → (check_timeouts now m).1 ≡ (check_timeouts now l).1
      → Pushed now deadline c l m

-- When the times are ascending, a callback that is pushed with a timeout that is not negative is
-- called by CheckTimeouts if and only if the time of the push and the timeout are over; else it
-- stays. All other callbacks are called, or stay, as they were without it.
pub push-Pushed :
    (second start now : ℕ) (timeout : ℤ) (c : Callback) (l : TimeToCallback)
    → ltb_ℤ timeout (pos 0) ≡ false
    → Ascending l
    → Pushed now (start + pos_part timeout * second) c l (push second start timeout c l)
unfolding push
push-Pushed second start now timeout c l h a =
    let t = start + pos_part timeout * second in
    let m = emplace t c l in
    let x = check_timeouts-due now l a in
    let y = check_timeouts-due now m (emplace-Ascending t c l a) in
    elim (Bool-cases (ltb now t)) [
      | inl e ↦
          rw (h, push)
            (waits (ground arith) (rw (x, y) (not_yet now t c l e))
              (rw (x, y) (later-emplace now t c l ∙ rw e refl)))
      | inr e ↦
          rw (h, push)
            (called (ground arith) (rw (x, y) (due_now now t c l e))
              (rw (x, y) (later-emplace now t c l ∙ rw e refl)))
    ]

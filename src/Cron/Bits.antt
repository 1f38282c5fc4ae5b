-- ===== src/Cron/Bits.antt =====
-- The bits that the operations of a CronField set.
use prun.Base.{
  ℕ, zero, suc, ◌+◌, ◌-◌, ◌%◌, ◌≤◌, ◌<◌, ◌≡◌, refl, ap, ◌∙◌, Bool, true, false, ◌&&◌, ◌||◌, ◌==◌,
  ltb, leb, if◌then◌else◌, arith, Bool-cases, inl, inr,
}
use native.Mathlib.Nat.{mod-eq_of_lt, mod-eq-sub-mod}
use prun.Cron.{ok, Field, fix_arg, set_bit, test_bit, has, set_steps}

-- The field's range is small, and its least value 0 or 1, as in all its uses.
pub record IsCronField (f : Field) : Type 0 where
  pub min_small : f.min_value ≤ 1
  pub max_small : f.max_value ≤ 59

-- The argument is a value of the field.
abbrev pub InRange : ℕ → Field → Type 0
InRange v f = (f.min_value ≤ v) × (v ≤ f.max_value)

pub fix_arg_small :
    (f : Field) (v : ℕ) → IsCronField f → InRange v f → fix_arg f v ≡ v - f.min_value
unfolding fix_arg
fix_arg_small f v h r = ground (arith, h, r)

-- Whether a loop from `i` to `last` passes `j`.
abbrev pub passes : ℕ → ℕ → ℕ → ℕ → Bool
passes i last period j = leb i j && leb j last && (((j - i) % period) == 0)

mod_near : (i j p : ℕ) → 0 < p → i ≤ j → j < i + p → (j - i) % p ≡ j - i
mod_near i j p z h k = mod-eq_of_lt (omega arith)

mod_far : (i j p : ℕ) → i + p ≤ j → (j - i) % p ≡ (j - (i + p)) % p
mod_far i j p h = mod-eq-sub-mod {n = j - i} {m = p} (omega arith) ∙ ap (λ x. x % p) (omega arith)

passes_step :
    (i last p j : ℕ) → 0 < p → i ≤ last → passes i last p j ≡ (i == j || passes (i + p) last p j)
passes_step i last p j z h = elim (Bool-cases (leb (i + p) j)) [
  | inl e ↦ ground (arith, mod_far i j p)
  | inr e ↦ elim (Bool-cases (leb i j)) [
    | inl k ↦ ground (arith, mod_near i j p)
    | inr k ↦ ground arith
  ]
]

-- What a field is after bits have been set.
abbrev pub Sets : (ℕ → Bool) → Field → Field → Type 0
Sets b f g =
    (g.min_value ≡ f.min_value)
    × (g.max_value ≡ f.max_value)
    × ((j : ℕ) → g.bits j ≡ (b j || f.bits j))

set_bit_small :
    (i : ℕ) (f : Field)
    → i ≤ f.max_value
    → (g : Field) × (set_bit i f ≡ ok g) × Sets (λ j. i == j) f g
unfolding set_bit
set_bit_small i f h = (
  record f { bits = λ j. if i == j then true else f.bits j },
  ground arith,
  (refl, refl, λ j. ground arith),
)

pub ltb_min : (a : ℕ) (f : Field) → InRange a f → ltb a f.min_value ≡ false
ltb_min a f r = ground (arith, r)

-- A loop of steps sets exactly the bits that it passes.
pub set_steps-Sets :
    (n i last period : ℕ) (f : Field)
    → 0 < n
    → last + 1 < i + n
    → 0 < period
    → last ≤ f.max_value
    → (g : Field) × (set_steps n i last period f ≡ ok g) × Sets (passes i last period) f g
unfolding set_steps
set_steps-Sets zero i last period f z e p m = absurd (omega arith)
set_steps-Sets (suc n) i last period f z e p m = elim (Bool-cases (leb i last)) [
  | inl k ↦
      let (g, set, one) = set_bit_small i f (ground arith) in
      let (r, done, rest) =
        set_steps-Sets n (i + period) last period g (ground arith) (ground arith) p
          (ground arith) in
      (
        r,
        rw (k, set) done,
        (
          rest.0 ∙ one.0,
          rest.1 ∙ one.1,
          λ j. ground (arith, rest.2 j, one.2 j, passes_step i last period j),
        ),
      )
  | inr k ↦ (f, rw k refl, (refl, refl, λ j. ground arith))
]

pub has_in :
    (v : ℕ) (f : Field) → IsCronField f → InRange v f → has v f ≡ ok (f.bits (v - f.min_value))
unfolding has test_bit
has_in v f h r = ground (arith, fix_arg_small f v h r)

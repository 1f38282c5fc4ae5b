-- ===== src/Cron/Fields.antt =====
-- What a CronField allows after AddRange and AddPeriod.
use prun.Base.{
  ℕ, ◌+◌, ◌-◌, ◌%◌, ◌≤◌, ◌<◌, ◌≡◌, refl, ap, ◌∙◌, Bool, false, ◌&&◌, ◌||◌, ◌==◌, ltb, leb,
  if◌then◌else◌, arith, Bool-cases, inl, inr,
}
use native.Mathlib.Nat.{mod-one}
use prun.Cron.{
  Result, ok, Field, has, steps_from, add_ordered, add_range, cleared, add_ordered_period,
  add_period,
}
use prun.Cron.Bits.{
  IsCronField, InRange, fix_arg_small, passes, Sets, set_steps-Sets, ltb_min, has_in,
}

-- What a field allows after a successful operation.
abbrev pub Allows : (ℕ → Bool → Bool) → Field → Result Field → Type 0
Allows b f r =
    (g : Field) × (r ≡ ok g)
    × IsCronField g
    × ((v : ℕ) → InRange v f → (old : Bool) × (has v f ≡ ok old) × (has v g ≡ ok (b v old)))

passes_shift :
    (m a b p v : ℕ) → m ≤ a → m ≤ b → m ≤ v → passes (a - m) (b - m) p (v - m) ≡ passes a b p v
passes_shift m a b p v h k l =
    let same : ((v - m) - (a - m)) % p ≡ (v - a) % p = ap (λ x. x % p) (omega arith) in ground arith

Sets-IsCronField : (b : ℕ → Bool) (f g : Field) → IsCronField f → Sets b f g → IsCronField g
Sets-IsCronField b f g h s = record {
  min_small = ground (arith, s.0, h.min_small);
  max_small = ground (arith, s.1, h.max_small);
}

has-Sets :
    (a b p v : ℕ) (f g : Field)
    → IsCronField f
    → InRange a f
    → InRange b f
    → InRange v f
    → Sets (passes (a - f.min_value) (b - f.min_value) p) f g
    → has v g ≡ ok (passes a b p v || f.bits (v - f.min_value))
has-Sets a b p v f g h r t i s =
    has_in v g (Sets-IsCronField (passes (a - f.min_value) (b - f.min_value) p) f g h s)
      (ground (arith, s.0, i), ground (arith, s.1, i))
    ∙ rw (s.0, s.2 (v - f.min_value), passes_shift f.min_value a b p v r.0 t.0 i.0) refl

steps_from-Allows :
    (a b period : ℕ) (f : Field)
    → IsCronField f
    → InRange a f
    → InRange b f
    → a ≤ b
    → 0 < period
    → Allows
        (λ v old. passes a b period v || old)
        f
        (steps_from (a - f.min_value) (b - f.min_value) period f)
steps_from-Allows a b period f h r t o p =
    let (g, e, s) =
      set_steps-Sets ((b - f.min_value) + 2 - (a - f.min_value)) (a - f.min_value) (b - f.min_value)
        period f (ground (arith, o)) (ground (arith, o, r, t)) p (ground (arith, t)) in
    (
      g,
      e,
      Sets-IsCronField (passes (a - f.min_value) (b - f.min_value) period) f g h s,
      λ v i. (f.bits (v - f.min_value), has_in v f h i, has-Sets a b period v f g h r t i s),
    )

add_ordered_eq :
    (a b : ℕ) (f : Field)
    → IsCronField f
    → InRange a f
    → InRange b f
    → add_ordered a b f ≡ steps_from (a - f.min_value) (b - f.min_value) 1 f
unfolding add_ordered
add_ordered_eq a b f h r t =
    rw (ltb_min a f r, fix_arg_small f a h r, fix_arg_small f b h t, add_ordered) refl

-- AddRange and AddPeriod begin with the lesser bound.
abbrev pub least : ℕ → ℕ → ℕ
least a b = if ltb b a then b else a

abbrev pub greatest : ℕ → ℕ → ℕ
greatest a b = if ltb b a then a else b

between : (a b v : ℕ) → passes a b 1 v ≡ (leb a v && leb v b)
between a b v = ground (arith, mod-one (v - a))

Allows-cong :
    (b c : ℕ → Bool → Bool) (f : Field) (r : Result Field)
    → ((v : ℕ) (old : Bool) → b v old ≡ c v old)
    → Allows b f r
    → Allows c f r
Allows-cong b c f r h (g, e, k, laws) =
    (g, e, k, λ v i. let (old, was, now) = laws v i in (old, was, now ∙ ap ok (h v old)))

add_ordered-Allows :
    (a b : ℕ) (f : Field)
    → IsCronField f
    → InRange a f
    → InRange b f
    → a ≤ b
    → Allows (λ v old. leb a v && leb v b || old) f (add_ordered a b f)
add_ordered-Allows a b f h r t o = rw (add_ordered_eq a b f h r t) (
    Allows-cong (λ v old. passes a b 1 v || old) (λ v old. leb a v && leb v b || old) f
      (steps_from (a - f.min_value) (b - f.min_value) 1 f)
      (λ v old. ap (λ x. x || old) (between a b v))
      (steps_from-Allows a b 1 f h r t o (omega arith)))

-- AddRange of two values of the field, in either order, adds exactly the values between them,
-- the bounds included.
pub add_range-Allows :
    (a b : ℕ) (f : Field)
    → IsCronField f
    → InRange a f
    → InRange b f
    → Allows (λ v old. leb (least a b) v && leb v (greatest a b) || old) f (add_range a b f)
unfolding add_range
add_range-Allows a b f h r t = elim (Bool-cases (ltb b a)) [
  | inl e ↦ rw (e, add_range) (add_ordered-Allows b a f h t r (ground arith))
  | inr e ↦ rw (e, add_range) (add_ordered-Allows a b f h r t (ground arith))
]

not_zero : (p : ℕ) → 0 < p → (p == 0) ≡ false
not_zero p z = ground arith

add_ordered_period_eq :
    (a b p : ℕ) (f : Field)
    → IsCronField f
    → InRange a f
    → InRange b f
    → 0 < p
    → add_ordered_period a b p f ≡ steps_from (a - f.min_value) (b - f.min_value) p (cleared f)
unfolding add_ordered_period
add_ordered_period_eq a b p f h r t z =
    rw
      (
        ltb_min a f r,
        not_zero p z,
        fix_arg_small f a h r,
        fix_arg_small f b h t,
        add_ordered_period,
      )
      refl

nothing_before :
    (b old : Bool) (r : Result Bool)
    → r ≡ ok old
    → r ≡ ok false
    → ◌≡◌ {A = Result Bool} (ok (b || old)) (ok b)
nothing_before b old r h k = ground arith

add_ordered_period-Allows :
    (a b p : ℕ) (f : Field)
    → IsCronField f
    → InRange a f
    → InRange b f
    → 0 < p
    → a ≤ b
    → Allows (λ v old. passes a b p v) f (add_ordered_period a b p f)
add_ordered_period-Allows a b p f h r t z o = rw (add_ordered_period_eq a b p f h r t z) (
    let clear : IsCronField (cleared f) = record {
      min_small = h.min_small;
      max_small = h.max_small;
    } in
    let (g, e, k, laws) = steps_from-Allows a b p (cleared f) clear r t o z in
    (
      g,
      e,
      k,
      λ v i.
          let (old, was, now) = laws v i in
          (
            f.bits (v - f.min_value),
            has_in v f h i,
            now
                ∙ nothing_before (passes a b p v) old (has v (cleared f)) was
                    (has_in v (cleared f) clear i),
          ),
    ))

-- AddPeriod of two values of the field, in either order, and a period that is not zero, allows
-- exactly the values that lie between them, at a multiple of the period from the lesser: what the
-- field allowed before is forgotten.
pub add_period-Allows :
    (a b p : ℕ) (f : Field)
    → IsCronField f
    → InRange a f
    → InRange b f
    → 0 < p
    → Allows (λ v old. passes (least a b) (greatest a b) p v) f (add_period a b p f)
unfolding add_period
add_period-Allows a b p f h r t z = elim (Bool-cases (ltb b a)) [
  | inl e ↦ rw (e, add_period) (add_ordered_period-Allows b a p f h t r z (ground arith))
  | inr e ↦ rw (e, add_period) (add_ordered_period-Allows a b p f h r t z (ground arith))
]

-- ===== src/Jobs/Simple.antt =====
-- IsSimple of jobs/example/simple.py and jobs/autotest/simple_heavy.py, which have the same text up
-- to the bound of main's loop.
use native.Mathlib.Nat.{mul-mod_right}
use native.Mathlib.Decide.{dec_lt}
use prun.Base.{
  ℕ, zero, suc, ◌+◌, ◌-◌, ◌*◌, ◌/◌, ◌%◌, ◌≤◌, ◌<◌, ◌≡◌, ◌≢◌, refl, ap, subst, ◌⊎◌, inl, inr, ◌↔◌,
  Bool, true, false, List, [], ◌∷◌, ◌++◌, ◌==◌, leb, if◌then◌else◌, arith,
}

-- int(math.sqrt(v)): the largest r with r * r ≤ v. For the values of the scripts, below 5,000,000,
-- the floating-point square root has that integer part.
isqrt_below : ℕ → ℕ → ℕ
isqrt_below zero v = 0
isqrt_below (suc k) v = let rest = isqrt_below k v in if leb (suc k * suc k) v then suc k else rest

unfoldable pub isqrt : ℕ → ℕ
unfolding isqrt_below
isqrt v = isqrt_below v v

-- The length of range(3, stop, 2).
abbrev pub odd_count : ℕ → ℕ
odd_count stop = (stop - 3 + 1) / 2

-- The `for` loop over the `n` values i, i + 2, ... left
unfoldable pub none_divides : ℕ → ℕ → ℕ → Bool
none_divides zero i v = true
none_divides (suc n) i v = let rest = none_divides n (i + 2) v in if v % i == 0 then false else rest

unfoldable pub is_simple : ℕ → Bool
is_simple v = if v % 2 == 0 then false else none_divides (odd_count (isqrt v)) 3 v

-- `for i in range(1, stop): if IsSimple(i): simples.append(i)`, over the `n` values from i on
unfoldable pub collect_simples : ℕ → ℕ → List ℕ → List ℕ
collect_simples zero i simples = simples
collect_simples (suc n) i simples =
    collect_simples n (i + 1) (if is_simple i then simples ++ i ∷ [] else simples)

-- The list that main of simple.py builds, and that of simple_heavy.py.
unfoldable pub simples : List ℕ
simples = collect_simples 499999 1 []

unfoldable pub heavy_simples : List ℕ
heavy_simples = collect_simples 4999999 1 []

isqrt_below_bounds :
    (k v : ℕ)
    → v < suc k * suc k
    → (isqrt_below k v * isqrt_below k v ≤ v) × (v < suc (isqrt_below k v) * suc (isqrt_below k v))
unfolding isqrt_below
isqrt_below_bounds zero v h = (omega arith, h)
isqrt_below_bounds (suc k) v h = ground (arith, isqrt_below_bounds k v)

lt_square : (v : ℕ) → v < suc v * suc v
lt_square v = grind arith

isqrt_bounds : (v : ℕ) → (isqrt v * isqrt v ≤ v) × (v < suc (isqrt v) * suc (isqrt v))
unfolding isqrt
isqrt_bounds v = isqrt_below_bounds v v (lt_square v)

shift : (i j v : ℕ) → v % (i + 2 * suc j) ≡ 0 → v % (i + 2 + 2 * j) ≡ 0
shift i j v e = subst (λ (x : ℕ). v % x ≡ 0) (omega arith) e

unshift : (i j v : ℕ) → v % (i + 2 + 2 * j) ≡ 0 → v % (i + 2 * suc j) ≡ 0
unshift i j v e = subst (λ (x : ℕ). v % x ≡ 0) (omega arith) e

start : (i v : ℕ) → v % (i + 2 * 0) ≡ v % i
start i v = ap (λ (x : ℕ). v % x) (omega arith)

-- The loop's answer, over its values i + 2 * j.
none_divides_sound : (n i v : ℕ) → none_divides n i v ≡ true → (j : ℕ) → j < n → v % (i + 2 * j) ≢ 0
unfolding none_divides
none_divides_sound zero i v h j k e = elim k [ ]
none_divides_sound (suc n) i v h zero k e = ground (arith, start i v)
none_divides_sound (suc n) i v h (suc j) k e =
    none_divides_sound n (i + 2) v (ground arith) j (omega arith) (shift i j v e)

none_divides_complete :
    (n i v : ℕ) → ((j : ℕ) → j < n → v % (i + 2 * j) ≢ 0) → none_divides n i v ≡ true
unfolding none_divides
none_divides_complete zero i v h = refl
none_divides_complete (suc n) i v h = ground (
  arith,
  start i v,
  h 0,
  none_divides_complete n (i + 2) v (λ j k e. h (suc j) (omega arith) (unshift i j v e)),
)

-- IsSimple answers True exactly for the odd numbers that no odd number from 3 up to, but without,
-- the integer square root divides.
is_simple_iff :
    (v : ℕ)
    → (is_simple v ≡ true) ↔ ((v % 2 ≡ 1) × ((j : ℕ) → 3 + 2 * j < isqrt v → v % (3 + 2 * j) ≢ 0))
unfolding is_simple
is_simple_iff v = (
  λ h.
      let odd : v % 2 ≡ 1 = ground arith in
      (odd, λ j k. none_divides_sound (odd_count (isqrt v)) 3 v (ground arith) j (omega arith)),
  λ h. ground (arith, none_divides_complete (odd_count (isqrt v)) 3 v (λ j k. h.1 j (omega arith))),
)

isqrt-eq : (v r : ℕ) → r * r ≤ v → v < suc r * suc r → isqrt v ≡ r
isqrt-eq v r h k = grind (arith, isqrt_bounds v)

square_le : (r v : ℕ) → r * r ≤ v → r ≤ v
square_le r v h = grind arith

isqrt-le : (v : ℕ) → isqrt v ≤ v
isqrt-le v = square_le (isqrt v) v (isqrt_bounds v).0

isqrt-square : (d : ℕ) → isqrt (d * d) ≡ d
isqrt-square d = isqrt-eq (d * d) d (omega arith) (omega arith)

square_odd : (d : ℕ) → d % 2 ≡ 1 → d * d % 2 ≡ 1
square_odd d h = let e : d ≡ 2 * (d / 2) + 1 = omega arith in rw e (omega arith)

mul-mod_self : (d e : ℕ) → 0 < d → d * e % d ≡ 0
mul-mod_self d e h = mul-mod_right d e

mul_mono : (a b c d : ℕ) → a ≤ b → c ≤ d → a * c ≤ b * d
mul_mono a b c d h k = grind arith

cofactor_bound : (d e r : ℕ) → 0 < d → r ≤ d → d * e < suc r * suc r → e ≤ d + 2
cofactor_bound d e r h k l = elim (dec_lt (d + 2) e) [
  | yes lt ↦ absurd (
      omega (
        arith,
        mul_mono d d (d + 3) e (omega arith) (omega arith),
        mul_mono (suc r) (suc d) (suc r) (suc d) (omega arith) (omega arith),
      ))
  | no ge ↦ omega arith
]

even_product : (j : ℕ) → (3 + 2 * j) * (4 + 2 * j) % 2 ≡ 0
even_product j = omega arith

-- IsSimple accepts every odd number that no smaller odd number from 3 divides, so every odd prime.
pub is_simple_complete :
    (v : ℕ) → v % 2 ≡ 1 → ((j : ℕ) → 3 + 2 * j < v → v % (3 + 2 * j) ≢ 0) → is_simple v ≡ true
is_simple_complete v odd h = (is_simple_iff v).1 (odd, λ j k. h j (omega (arith, isqrt-le v)))

not_lt : {d r : ℕ} → (d < r → ⊥) → r ≤ d
not_lt h = omega arith

skip : (j e : ℕ) → (3 + 2 * j) * e % 2 ≡ 1 → e ≡ 4 + 2 * j → ⊥
skip j e h k = omega (arith, even_product j, ap (λ (x : ℕ). (3 + 2 * j) * x % 2) k)

-- A product d * e that IsSimple accepts, of odd factors with 3 ≤ d ≤ e, has e = d or e = d + 2.
pub is_simple-composite :
    (j e : ℕ)
    → 3 + 2 * j ≤ e
    → is_simple ((3 + 2 * j) * e) ≡ true
    → (e ≡ 3 + 2 * j) ⊎ (e ≡ 3 + 2 * j + 2)
is_simple-composite j e h k =
    let d = 3 + 2 * j in
    let (odd, free) = (is_simple_iff (d * e)).0 k in
    let r = isqrt (d * e) in
    let low : r ≤ d = not_lt (λ lt. free j lt (mul-mod_self d e (omega arith))) in
    let close : e ≤ d + 2 = cofactor_bound d e r (omega arith) low (isqrt_bounds (d * e)).1 in
    elim (dec_lt d e) [
      | no ge ↦ inl (omega arith)
      | yes lt ↦ elim (dec_lt (d + 1) e) [
        | yes lt' ↦ inr (omega arith)
        | no ge ↦ absurd (skip j e odd (omega arith))
      ]
    ]

-- The loop stops before the square root: IsSimple accepts the square d * d of any odd d from 3 on
-- that no odd number from 3 up to d divides, so the square of every odd prime.
pub is_simple-square :
    (d : ℕ)
    → d % 2 ≡ 1
    → ((j : ℕ) → 3 + 2 * j < d → (d * d) % (3 + 2 * j) ≢ 0)
    → is_simple (d * d) ≡ true
is_simple-square d odd h =
    (is_simple_iff (d * d)).1 (square_odd d odd, λ j k. h j (omega (arith, isqrt-square d)))

-- ===== src/Cron.antt =====
-- CronField and CronJob of common/cron.h and common/cron.cpp, from parsed fields on: which times a
-- field allows, and the search of CronJob::Next.
pub mod Bits
pub mod Fields
pub mod Search
pub mod Months
pub mod Minutes
pub mod Today
mod Checks
use prun.Base.{
  ℕ, zero, suc, ◌+◌, ◌-◌, ◌*◌, ◌/◌, ◌%◌, ◌^◌, Bool, true, false, not, ◌&&◌, ◌==◌, ltb, leb,
  if◌then◌else◌,
}
use prun.Base.Int.{ℤ, pos, negsuc, ◌-ℤ◌}

-- What a function returns: a value, or nothing because it throws std::out_of_range, or because it
-- still runs when its fuel is used up.
pub data Result {ℓ} (A : Type ℓ) : Type ℓ where
  ok : A → Result A
  throws runs_on : Result A

abbrev pub then_do {ℓ} : {A B : Type ℓ} → Result A → (A → Result B) → Result B
then_do (ok a) f = f a
then_do throws f = throws
then_do runs_on f = runs_on

-- CronField<MinValue, MaxValue>; `bits` is the bitset of MaxValue + 1 bits
pub record Field : Type 0 where
  pub min_value : ℕ
  pub max_value : ℕ
  pub bits : ℕ → Bool

-- FixArg, on a size_t of 64 bits
unfoldable pub fix_arg : Field → ℕ → ℕ
fix_arg f v = if ltb 0 f.min_value then (v + 2 ^ 64 - f.min_value) % 2 ^ 64 else v

-- bitset::set
unfoldable pub set_bit : ℕ → Field → Result Field
set_bit i f =
    if ltb i (f.max_value + 1)
    then ok (record f { bits = λ j. if i == j then true else f.bits j })
    else throws

-- bitset::test
unfoldable pub test_bit : ℕ → Field → Result Bool
test_bit i f = if ltb i (f.max_value + 1) then ok (f.bits i) else throws

unfoldable pub all_below : ℕ → (ℕ → Bool) → Bool
all_below zero b = true
all_below (suc n) b = b n && all_below n b

-- Has
unfoldable pub has : ℕ → Field → Result Bool
unfolding fix_arg test_bit
has v f = test_bit (fix_arg f v) f

-- HasAll
unfoldable pub has_all : Field → Bool
unfolding all_below
has_all f = all_below (f.max_value + 1) f.bits

-- AddValue
unfoldable pub add_value : ℕ → Field → Result Field
unfolding fix_arg set_bit
add_value v f = set_bit (fix_arg f v) f

-- for( i = first; i <= last; i += period ) time_val_.set( i ), on fuel
unfoldable pub set_steps : ℕ → ℕ → ℕ → ℕ → Field → Result Field
unfolding set_bit
set_steps zero i last period f = runs_on
set_steps (suc n) i last period f =
    let rest = then_do (set_bit i f) (λ g. set_steps n (i + period) last period g) in
    if leb i last then rest else ok f

abbrev pub steps_from : ℕ → ℕ → ℕ → Field → Result Field
steps_from first last period f = set_steps (last + 2 - first) first last period f

-- AddRange, its arguments in order
unfoldable pub add_ordered : ℕ → ℕ → Field → Result Field
unfolding fix_arg set_steps
add_ordered first last f =
    if ltb first f.min_value then throws else steps_from (fix_arg f first) (fix_arg f last) 1 f

-- AddRange
unfoldable pub add_range : ℕ → ℕ → Field → Result Field
unfolding add_ordered
add_range first last f =
    if ltb last first then add_ordered last first f else add_ordered first last f

abbrev pub cleared : Field → Field
cleared f = record f { bits = λ i. false }

-- AddPeriod, its bounds in order
unfoldable pub add_ordered_period : ℕ → ℕ → ℕ → Field → Result Field
unfolding fix_arg set_steps
add_ordered_period first last period f =
    if ltb first f.min_value
    then throws
    else (if period == 0
        then throws
        else steps_from (fix_arg f first) (fix_arg f last) period (cleared f))

-- AddPeriod
unfoldable pub add_period : ℕ → ℕ → ℕ → Field → Result Field
unfolding add_ordered_period
add_period first last period f =
    if ltb last first
    then add_ordered_period last first period f
    else add_ordered_period first last period f

-- SetAll
unfoldable pub set_all : Field → Field
set_all f = record f { bits = λ i. true }

-- SetAllPeriod
unfoldable pub set_all_period : ℕ → Field → Result Field
unfolding fix_arg set_steps
set_all_period period f =
    if period == 0
    then throws
    else steps_from (fix_arg f f.min_value) (fix_arg f f.max_value) period (cleared f)

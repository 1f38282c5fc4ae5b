-- ===== src/Cron/Checks.antt =====
-- Tests of the model of cron fields and of CronJob::Next, and its theorems at concrete inputs.
use prun.Base.{ℕ, ◌≤◌, ◌≡◌, refl, Bool, true, false, ◌==◌, arith}
use prun.Base.Int.{pos}
use prun.Cron.{ok, throws, Field, has, has_all, fix_arg, test_bit, add_period}
use prun.Cron.Bits.{IsCronField, passes}
use prun.Cron.Fields.{Allows, least, greatest, add_period-Allows}
use prun.Cron.Search.{Time, Calendar, CronJob, is_day, next_time}
use prun.Cron.Months.{next_time_throws}
use prun.Cron.Today.{next_time_now, next_time_overruns}

-- Months of 31 days and days of the week that follow the day of the month
abbrev calendar : Calendar
calendar = record { days_in_month = λ y m. pos 31; day_of_week = λ y m d. d }

abbrev field_of : ℕ → ℕ → (ℕ → Bool) → Field
field_of min max bits = record { min_value = min; max_value = max; bits = bits }

abbrev any_value : ℕ → Bool
any_value i = true

-- `0 5 * * *`
abbrev at_five : CronJob
at_five = record {
  minute = field_of 0 59 (λ i. i == 0);
  hour = field_of 0 23 (λ i. i == 5);
  day_month = field_of 1 31 any_value;
  month = field_of 1 12 any_value;
  day_week = field_of 0 6 any_value;
}

-- `0 5 * 12 *`
abbrev in_december : CronJob
in_december = record at_five { month = field_of 1 12 (λ i. i == 11) }

abbrev november : Time
november = record { year = 2021; month = 11; day = 3; hour = 5; minute = 0 }

abbrev half_past_five : Time
half_past_five = record { year = 2021; month = 6; day = 3; hour = 5; minute = 30 }

abbrev five : Time
five = record { year = 2021; month = 6; day = 3; hour = 5; minute = 0 }

hours-IsCronField : IsCronField at_five.hour
hours-IsCronField = record { min_small = ground arith; max_small = ground arith }

add_period-Allows_example :
    Allows
      (λ v old. passes (least 8 12) (greatest 8 12) 2 v)
      at_five.hour
      (add_period 8 12 2 at_five.hour)
add_period-Allows_example =
    add_period-Allows 8 12 2 at_five.hour hours-IsCronField (ground arith) (ground arith)
      (omega arith)

november_missing : (k : ℕ) → 11 ≤ k → k ≤ 11 → has k in_december.month ≡ ok false
unfolding has fix_arg test_bit
november_missing k h l = ground arith

next_time_throws_example : next_time calendar 10 in_december november ≡ throws
next_time_throws_example =
    next_time_throws calendar 10 in_december november refl refl (omega arith) (omega arith)
      november_missing

june_allowed : has 6 at_five.month ≡ ok true
unfolding has fix_arg test_bit
june_allowed = refl

day_allowed : is_day calendar at_five five ≡ ok true
unfolding is_day has has_all
day_allowed = refl

day_allowed_later : is_day calendar at_five half_past_five ≡ ok true
unfolding is_day has has_all
day_allowed_later = refl

hour_allowed : has 5 at_five.hour ≡ ok true
unfolding has fix_arg test_bit
hour_allowed = refl

minute_allowed : has 0 at_five.minute ≡ ok true
unfolding has fix_arg test_bit
minute_allowed = refl

no_minute_left : (j : ℕ) → 30 ≤ j → j ≤ 59 → has j at_five.minute ≡ ok false
unfolding has fix_arg test_bit
no_minute_left j h l = ground arith

five_found : next_time calendar 61 at_five five ≡ ok five
five_found =
    next_time_now calendar 61 0 at_five five (omega arith) june_allowed day_allowed hour_allowed
      (omega arith) (omega arith) (λ j h l. absurd (omega arith)) minute_allowed

next_time_now_example : next_time calendar 61 at_five five ≡ ok five
next_time_now_example =
    next_time_now calendar 61 0 at_five five (omega arith) june_allowed day_allowed hour_allowed
      (omega arith) (omega arith) (λ j h l. absurd (omega arith)) minute_allowed

next_time_overruns_example :
    next_time calendar 121 at_five half_past_five
    ≡ ok (record half_past_five { hour = 6; minute = 0 })
next_time_overruns_example =
    next_time_overruns calendar 121 0 at_five half_past_five (omega arith) june_allowed
      day_allowed_later hour_allowed (omega arith) (omega arith) (omega arith) no_minute_left
      (λ j h. absurd (omega arith)) minute_allowed

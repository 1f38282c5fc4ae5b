-- ===== src/Cron/Search.antt =====
-- CronJob::Next of common/cron.cpp. std::localtime and std::mktime are left to a calendar, and the
-- time is given by its parts.
use prun.Base.{ℕ, zero, suc, ◌+◌, ◌%◌, Bool, true, false, ◌==◌, if◌then◌else◌}
use prun.Base.Int.{ℤ, pos, negsuc}
use prun.Cron.{Result, ok, runs_on, then_do, Field, has, has_all}

pub record Time : Type 0 where
  pub year : ℕ
  pub month : ℕ
  pub day : ℕ
  pub hour : ℕ
  pub minute : ℕ

-- GetDaysInMonth, whose value is negative for the eleventh month (it asks mktime for the difference
-- from the month after it as month 0), and GetDayOfWeek
pub record Calendar : Type 0 where
  pub days_in_month : ℕ → ℕ → ℤ
  pub day_of_week : ℕ → ℕ → ℕ → ℕ

pub record CronJob : Type 0 where
  pub minute : Field
  pub hour : Field
  pub day_month : Field
  pub month : Field
  pub day_week : Field

-- The size of a divisor, for C's remainder of a number that is not negative; 0 does not occur.
abbrev pub size : ℤ → ℕ
size (pos n) = n
size (negsuc n) = suc n

unfoldable pub update_month : Time → Time
update_month t =
    let m = (t.month + 1) % 12 in
    record t { month = m; year = (if m == 1 then t.year + 1 else t.year) }

-- `while( !test ) { first = true; update }`, on fuel
unfoldable pub seek : ℕ → (Time → Result Bool) → (Time → Time) → Time × Bool → Result (Time × Bool)
seek zero test update state = runs_on
seek (suc n) test update (t, first) =
    let rest = seek n test update (update t, true) in
    then_do (test t) (λ found. if found then ok (t, first) else rest)

module _ (calendar : Calendar) where
  unfoldable pub update_day : Time → Time
  unfolding update_month
  update_day t =
      let d = (t.day + 1) % size (calendar.days_in_month t.year t.month) in
      if d == 1 then update_month (record t { day = d }) else record t { day = d }

  unfoldable pub update_hour : Time → Time
  unfolding update_day
  update_hour t =
      let h = (t.hour + 1) % 24 in
      if h == 0 then update_day (record t { hour = h }) else record t { hour = h }

  unfoldable pub update_minute : Time → Time
  unfolding update_hour
  update_minute t =
      let m = (t.minute + 1) % 60 in
      if m == 0 then update_hour (record t { minute = m }) else record t { minute = m }

  abbrev pub has_day_of_week : CronJob → Time → Result Bool
  has_day_of_week job t = has (calendar.day_of_week t.year t.month t.day) job.day_week

  -- The negation of DayPredicate: whether the search for the day stops
  unfoldable pub is_day : CronJob → Time → Result Bool
  is_day job t =
      if has_all job.day_month
      then (if has_all job.day_week
          then then_do (has t.day job.day_month) (λ b. if b then ok true else has_day_of_week job t)
          else has_day_of_week job t)
      else (if has_all job.day_week then has t.day job.day_month else ok true)

  -- The values from which the search for the day, the hour and the minute start
  abbrev pub from_day : Time × Bool → Time × Bool
  from_day (t, first) = ((if first then record t { day = 1 } else t), first)

  abbrev pub from_hour : Time × Bool → Time × Bool
  from_hour (t, first) = ((if first then record t { hour = 0 } else t), first)

  abbrev pub from_minute : Time × Bool → Time × Bool
  from_minute (t, first) = ((if first then record t { minute = 0 } else t), first)

  -- The four loops of Next, each on the same fuel
  unfoldable pub search_month : ℕ → CronJob → Time → Result (Time × Bool)
  unfolding seek update_month
  search_month n job now = seek n (λ t. has t.month job.month) update_month (now, false)

  unfoldable pub search_day : ℕ → CronJob → Time × Bool → Result (Time × Bool)
  unfolding seek update_day is_day
  search_day n job s = seek n (is_day job) update_day (from_day s)

  unfoldable pub search_hour : ℕ → CronJob → Time × Bool → Result (Time × Bool)
  unfolding seek update_hour
  search_hour n job s = seek n (λ t. has t.hour job.hour) update_hour (from_hour s)

  unfoldable pub search_minute : ℕ → CronJob → Time × Bool → Result (Time × Bool)
  unfolding seek update_minute
  search_minute n job s = seek n (λ t. has t.minute job.minute) update_minute (from_minute s)

  -- Next
  unfoldable pub next_time : ℕ → CronJob → Time → Result Time
  unfolding search_month search_day search_hour search_minute
  next_time n job now = then_do (search_month n job now) (λ a.
      then_do (search_day n job a)
        (λ b. then_do (search_hour n job b) (λ c. then_do (search_minute n job c) (λ d. ok d.0))))

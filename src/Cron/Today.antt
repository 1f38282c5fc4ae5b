-- ===== src/Cron/Today.antt =====
-- CronJob::Next from a time of an allowed month, day and hour.
use prun.Base.{
  ℕ, zero, suc, ◌+◌, ◌-◌, ◌%◌, ◌≤◌, ◌<◌, ◌≡◌, refl, ap, ◌∙◌, Bool, true, false, ◌==◌, arith,
}
use prun.Cron.{ok, then_do, has}
use prun.Cron.Search.{
  Time, Calendar, CronJob, update_month, seek, update_day, update_hour, update_minute, is_day,
  next_time, search_month, search_day, search_hour,
}
use prun.Cron.Months.{seek_step, seek_stop}

minute_fits : (t : Time) → t.minute < 59 → (t.minute + 1) % 60 ≡ t.minute + 1
minute_fits t h = omega arith

not_minute_zero : (t : Time) → (t.minute + 1 == 0) ≡ false
not_minute_zero t = ground arith

hour_fits : (t : Time) → t.hour < 23 → (t.hour + 1) % 24 ≡ t.hour + 1
hour_fits t h = omega arith

not_hour_zero : (t : Time) → (t.hour + 1 == 0) ≡ false
not_hour_zero t = ground arith

module _ (calendar : Calendar) where
  -- Each search stops at once where the present time passes its test.
  search_month_now :
      (n : ℕ) (job : CronJob) (now : Time)
      → has now.month job.month ≡ ok true
      → search_month calendar (suc n) job now ≡ ok (now, false)
  unfolding search_month
  search_month_now n job now = seek_stop n (λ t. has t.month job.month) update_month now false

  search_day_now :
      (n : ℕ) (job : CronJob) (now : Time)
      → is_day calendar job now ≡ ok true
      → search_day calendar (suc n) job (now, false) ≡ ok (now, false)
  unfolding search_day
  search_day_now n job now = seek_stop n (is_day calendar job) (update_day calendar) now false

  search_hour_now :
      (n : ℕ) (job : CronJob) (now : Time)
      → has now.hour job.hour ≡ ok true
      → search_hour calendar (suc n) job (now, false) ≡ ok (now, false)
  unfolding search_hour
  search_hour_now n job now =
      seek_stop n (λ t. has t.hour job.hour) (update_hour calendar) now false

  minute_next :
      (t : Time) → t.minute < 59 → update_minute calendar t ≡ record t { minute = t.minute + 1 }
  unfolding update_minute
  minute_next t h = rw (minute_fits t h, not_minute_zero t, update_minute) refl

  hour_next :
      (t : Time)
      → t.minute ≡ 59
      → t.hour < 23
      → update_minute calendar t ≡ record t { minute = 0; hour = t.hour + 1 }
  unfolding update_minute update_hour
  hour_next t h k = rw (h, hour_fits t k, not_hour_zero t, update_minute, update_hour) refl

  -- Minutes that are not allowed are passed one by one.
  seek_minutes :
      (k n m : ℕ) (job : CronJob) (t : Time) (first : Bool)
      → t.minute + k ≡ m
      → m ≤ 59
      → k < n
      → ((j : ℕ) → t.minute ≤ j → j < m → has j job.minute ≡ ok false)
      → has m job.minute ≡ ok true
      → (last : Bool) × (seek n (λ t. has t.minute job.minute) (update_minute calendar) (t, first)
          ≡ ok (record t { minute = m }, last))
  seek_minutes k zero m job t first e h f a b = absurd (omega arith)
  seek_minutes zero (suc n) m job t first e h f a b =
      let same : t.minute ≡ m = omega arith in
      (
        first,
        seek_stop n (λ t. has t.minute job.minute) (update_minute calendar) t first
              (ap (λ x. has x job.minute) same ∙ b)
            ∙ ap (λ x. ok (record t { minute = x }, first)) same,
      )
  seek_minutes (suc k) (suc n) m job t first e h f a b =
      let (last, rest) =
        seek_minutes k n m job (record t { minute = t.minute + 1 }) true (omega arith) h
          (omega arith) (λ j p q. a j (omega arith) q) b in
      (
        last,
        seek_step n (λ t. has t.minute job.minute) (update_minute calendar) t first
              (a t.minute (omega arith) (omega arith))
            ∙ ap (λ u. seek n (λ t. has t.minute job.minute) (update_minute calendar) (u, true))
                (minute_next t (omega arith))
            ∙ rest,
      )

  seek_next_hour :
      (k n m : ℕ) (job : CronJob) (t : Time) (first : Bool)
      → t.minute + k ≡ 59
      → t.hour < 23
      → m ≤ 59
      → k + 1 + m < n
      → ((j : ℕ) → t.minute ≤ j → j ≤ 59 → has j job.minute ≡ ok false)
      → ((j : ℕ) → j < m → has j job.minute ≡ ok false)
      → has m job.minute ≡ ok true
      → (last : Bool) × (seek n (λ t. has t.minute job.minute) (update_minute calendar) (t, first)
          ≡ ok (record t { minute = m; hour = t.hour + 1 }, last))
  seek_next_hour k zero m job t first e x h f a c b = absurd (omega arith)
  seek_next_hour zero (suc n) m job t first e x h f a c b =
      let (last, rest) =
        seek_minutes m n m job (record t { minute = 0; hour = t.hour + 1 }) true (omega arith) h
          (omega arith) (λ j p q. c j q) b in
      (
        last,
        seek_step n (λ t. has t.minute job.minute) (update_minute calendar) t first
              (a t.minute (omega arith) (omega arith))
            ∙ ap (λ u. seek n (λ t. has t.minute job.minute) (update_minute calendar) (u, true))
                (hour_next t (omega arith) x)
            ∙ rest,
      )
  seek_next_hour (suc k) (suc n) m job t first e x h f a c b =
      let (last, rest) =
        seek_next_hour k n m job (record t { minute = t.minute + 1 }) true (omega arith) x h
          (omega arith) (λ j p q. a j (omega arith) q) c b in
      (
        last,
        seek_step n (λ t. has t.minute job.minute) (update_minute calendar) t first
              (a t.minute (omega arith) (omega arith))
            ∙ ap (λ u. seek n (λ t. has t.minute job.minute) (update_minute calendar) (u, true))
                (minute_next t (omega arith))
            ∙ rest,
      )

  -- When the month, the day and the hour of the present time are allowed, and some minute of this
  -- hour that is not past, Next returns the first such minute of this hour.
  pub next_time_now :
      (n m : ℕ) (job : CronJob) (now : Time)
      → 60 < n
      → has now.month job.month ≡ ok true
      → is_day calendar job now ≡ ok true
      → has now.hour job.hour ≡ ok true
      → now.minute ≤ m
      → m ≤ 59
      → ((j : ℕ) → now.minute ≤ j → j < m → has j job.minute ≡ ok false)
      → has m job.minute ≡ ok true
      → next_time calendar n job now ≡ ok (record now { minute = m })
  unfolding next_time
  next_time_now zero m job now f mo da ho l h a b = absurd (omega arith)
  next_time_now (suc n) m job now f mo da ho l h a b =
      rw
        (
          search_month_now n job now mo,
          search_day_now n job now da,
          search_hour_now n job now ho,
          next_time,
        )
        (let (last, found) =
            seek_minutes (m - now.minute) (suc n) m job now false (omega arith) h (omega arith) a
              b in
          ap (λ r. then_do r (λ d. ok d.0)) found)

  -- When the month, the day and the hour of the present time are allowed, but no minute of this hour
  -- is left that is, and the hour is not the last of the day, Next returns the first allowed minute
  -- of the next hour, whether or not the hour field allows that hour.
  pub next_time_overruns :
      (n m : ℕ) (job : CronJob) (now : Time)
      → 120 < n
      → has now.month job.month ≡ ok true
      → is_day calendar job now ≡ ok true
      → has now.hour job.hour ≡ ok true
      → now.minute ≤ 59
      → now.hour < 23
      → m ≤ 59
      → ((j : ℕ) → now.minute ≤ j → j ≤ 59 → has j job.minute ≡ ok false)
      → ((j : ℕ) → j < m → has j job.minute ≡ ok false)
      → has m job.minute ≡ ok true
      → next_time calendar n job now ≡ ok (record now { hour = now.hour + 1; minute = m })
  unfolding next_time
  next_time_overruns zero m job now f mo da ho l x h a c b = absurd (omega arith)
  next_time_overruns (suc n) m job now f mo da ho l x h a c b =
      rw
        (
          search_month_now n job now mo,
          search_day_now n job now da,
          search_hour_now n job now ho,
          next_time,
        )
        (let (last, found) =
            seek_next_hour (59 - now.minute) (suc n) m job now false (omega arith) x h (omega arith)
              a c b in
          ap (λ r. then_do r (λ d. ok d.0)) found)

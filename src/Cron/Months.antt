-- ===== src/Cron/Months.antt =====
-- The search of CronJob::Next for the month.
use prun.Base.{ℕ, zero, suc, ◌+◌, ◌-◌, ◌≤◌, ◌<◌, ◌≡◌, refl, ap, ◌∙◌, Bool, true, false, arith}
use prun.Cron.{Result, ok, throws, Field, has, fix_arg, test_bit}
use prun.Cron.Search.{Time, Calendar, CronJob, update_month, seek, next_time, search_month}

abbrev has_month : CronJob → Time → Result Bool
has_month job t = has t.month job.month

no_month_zero : (f : Field) → f.min_value ≡ 1 → f.max_value ≡ 12 → has 0 f ≡ throws
unfolding has fix_arg test_bit
no_month_zero f h k = ground arith

pub seek_step :
    (n : ℕ) (test : Time → Result Bool) (update : Time → Time) (t : Time) (first : Bool)
    → test t ≡ ok false
    → seek (suc n) test update (t, first) ≡ seek n test update (update t, true)
unfolding seek
seek_step n test update t first h = rw h refl

pub seek_stop :
    (n : ℕ) (test : Time → Result Bool) (update : Time → Time) (t : Time) (first : Bool)
    → test t ≡ ok true
    → seek (suc n) test update (t, first) ≡ ok (t, first)
unfolding seek
seek_stop n test update t first h = rw h refl

seek_throw :
    (n : ℕ) (test : Time → Result Bool) (update : Time → Time) (t : Time) (first : Bool)
    → test t ≡ throws
    → seek (suc n) test update (t, first) ≡ throws
unfolding seek
seek_throw n test update t first h = rw h refl

month_zero : (t : Time) → t.month ≡ 11 → (update_month t).month ≡ 0
unfolding update_month
month_zero t h = rw h refl

month_next : (t : Time) → t.month < 11 → (update_month t).month ≡ t.month + 1
unfolding update_month
month_next t h = ground arith

seek_month_throws :
    (d n : ℕ) (job : CronJob) (t : Time) (first : Bool)
    → job.month.min_value ≡ 1
    → job.month.max_value ≡ 12
    → t.month + d ≡ 11
    → d + 1 < n
    → ((k : ℕ) → t.month ≤ k → k ≤ 11 → has k job.month ≡ ok false)
    → seek n (has_month job) update_month (t, first) ≡ throws
seek_month_throws d zero job t first a b e f h = absurd (omega arith)
seek_month_throws d (suc zero) job t first a b e f h = absurd (omega arith)
seek_month_throws zero (suc (suc n)) job t first a b e f h =
    seek_step (suc n) (has_month job) update_month t first (h t.month (omega arith) (omega arith))
    ∙ seek_throw n (has_month job) update_month (update_month t) true
        (ap (λ m. has m job.month) (month_zero t (omega arith)) ∙ no_month_zero job.month a b)
seek_month_throws (suc d) (suc (suc n)) job t first a b e f h =
    seek_step (suc n) (has_month job) update_month t first (h t.month (omega arith) (omega arith))
    ∙ seek_month_throws d (suc n) job (update_month t) true a b
        (omega (arith, month_next t (omega arith))) (omega arith)
        (λ k p q. h k (omega (arith, month_next t (omega arith))) q)

module _ (calendar : Calendar) where
  -- When no month from the present one to the eleventh is allowed, Next throws, though the field
  -- may allow the twelfth or one of the next year: behind month 11 comes month 0.
  pub next_time_throws :
      (n : ℕ) (job : CronJob) (now : Time)
      → job.month.min_value ≡ 1
      → job.month.max_value ≡ 12
      → now.month ≤ 11
      → 13 - now.month < n
      → ((k : ℕ) → now.month ≤ k → k ≤ 11 → has k job.month ≡ ok false)
      → next_time calendar n job now ≡ throws
  unfolding next_time search_month
  next_time_throws n job now a b m f h =
      rw
        (
          seek_month_throws (11 - now.month) n job now false a b (omega arith) (omega arith) h,
          next_time,
        )
        refl

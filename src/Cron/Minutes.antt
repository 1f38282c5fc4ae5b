-- ===== src/Cron/Minutes.antt =====
-- What every time that CronJob::Next returns satisfies.
use prun.Base.{
  ℕ, zero, suc, ◌≡◌, refl, subst, sym, ap, ◌∙◌, Bool, true, false, if◌then◌else◌, arith,
}
use prun.Cron.{Result, ok, throws, runs_on, then_do, has}
use prun.Cron.Search.{
  Time, Calendar, CronJob, seek, update_minute, next_time, search_month, search_day, search_hour,
  search_minute, from_minute,
}

time_or : Time → Result (Time × Bool) → Time
time_or t (ok a) = a.0
time_or t throws = t
time_or t runs_on = t

-- What a search returns passes its test.
found_by :
    (r : Result Bool) (t t' : Time) (first first' : Bool) (rest : Result (Time × Bool))
    (test : Time → Result Bool)
    → test t ≡ r
    → (rest ≡ ok (t', first') → test t' ≡ ok true)
    → then_do r (λ found. if found then ok (t, first) else rest) ≡ ok (t', first')
    → test t' ≡ ok true
unfolding time_or
found_by (ok true) t t' first first' rest test e k h = ap test (sym (ap (time_or t) h)) ∙ e
found_by (ok false) t t' first first' rest test e k h = k h
found_by throws t t' first first' rest test e k h = absurd (ground arith)
found_by runs_on t t' first first' rest test e k h = absurd (ground arith)

seek_found :
    (n : ℕ) (test : Time → Result Bool) (update : Time → Time) (t t' : Time) (first first' : Bool)
    → seek n test update (t, first) ≡ ok (t', first')
    → test t' ≡ ok true
unfolding seek
seek_found zero test update t t' first first' h = absurd (ground arith)
seek_found (suc n) test update t t' first first' h =
    found_by (test t) t t' first first' (seek n test update (update t, true)) test refl
      (seek_found n test update (update t) t' true first') h

plain_or : Time → Result Time → Time
plain_or t (ok a) = a
plain_or t throws = t
plain_or t runs_on = t

-- Whatever is returned satisfies a predicate.
abbrev Always {ℓ} : {A : Type ℓ} → (A → Type 0) → Result A → Type ℓ
Always {A = A} P r = (a : A) → r ≡ ok a → P a

Always-then :
    {A : Type 0} (P : Time → Type 0) (r : Result A) (f : A → Result Time)
    → ((a : A) → r ≡ ok a → Always P (f a))
    → Always P (then_do r f)
Always-then P (ok a) f h b e = h a refl b e
Always-then P throws f h b e = absurd (ground arith)
Always-then P runs_on f h b e = absurd (ground arith)

ok_fst : (P : Time → Type 0) (d : Time × Bool) → P d.0 → Always P (ok d.0)
unfolding plain_or
ok_fst P d p a e = subst P (ap (plain_or d.0) e) p

module _ (calendar : Calendar) where
  abbrev pub MinuteAllowed : CronJob → Time → Type 0
  MinuteAllowed job t = has t.minute job.minute ≡ ok true

  minute_found :
      (n : ℕ) (job : CronJob) (c d : Time × Bool)
      → search_minute calendar n job c ≡ ok d
      → MinuteAllowed job d.0
  unfolding search_minute
  minute_found n job c d h =
      seek_found n (λ t. has t.minute job.minute) (update_minute calendar)
        (from_minute calendar c).0 d.0 (from_minute calendar c).1 d.1 h

  -- The minute of the time that Next returns, if it returns one, is allowed.
  pub next_time-MinuteAllowed :
      (n : ℕ) (job : CronJob) (now t : Time)
      → next_time calendar n job now ≡ ok t
      → MinuteAllowed job t
  unfolding next_time
  next_time-MinuteAllowed n job now =
      Always-then (MinuteAllowed job) (search_month calendar n job now) _ (λ a e.
        Always-then (MinuteAllowed job) (search_day calendar n job a) _ (λ b f.
          Always-then (MinuteAllowed job) (search_hour calendar n job b) _ (λ c g.
            Always-then (MinuteAllowed job) (search_minute calendar n job c) _
              (λ d h. ok_fst (MinuteAllowed job) d (minute_found n job c d h)))))

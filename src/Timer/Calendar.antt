-- ===== src/Timer/Calendar.antt =====
-- The dates that Timer::refresh of src/timer.cc computes, and the Gregorian calendar.
use topy.Prelude.{
  ℕ, zero, suc, ◌+◌, ◌-◌, ◌*◌, ◌%◌, ◌≤◌, ◌<◌, ◌≡◌, ◌↔◌, refl, ap, Bool, true, false, arith, ◌==◌,
  if◌then◌else◌, ◌&&◌, ◌||◌, not,
}
use topy.Timer.{Clock, Timer, table_at, set_date, refresh, lock, unlock}

-- The length of a year of the Gregorian calendar, and the days from 1 January 2008 to that of 2008 + i.
abbrev is_leap : ℕ → Bool
is_leap y = y % 4 == 0 && (not (y % 100 == 0) || y % 400 == 0)

abbrev days_in_year : ℕ → ℕ
days_in_year y = if is_leap y then 366 else 365

pub days_before : ℕ → ℕ
days_before zero = 0
days_before (suc i) = days_before i + days_in_year (2008 + i)

-- Two functions have the same values at 0 .. k - 1.
agree : (ℕ → ℕ) → (ℕ → ℕ) → ℕ → Bool
agree f g zero = true
agree f g (suc k) = if f k == g k then agree f g k else false

agree_at : (f g : ℕ → ℕ) (k i : ℕ) → agree f g k ≡ true → i < k → f i ≡ g i
unfolding agree
agree_at f g zero i h below = absurd (omega arith)
agree_at f g (suc k) i h below = ground (arith, agree_at f g k i)

whole_table : agree (table_at (λ j. 0)) days_before 20 ≡ true
unfolding agree table_at days_before
whole_table = refl

table-calendar : (beyond : ℕ → ℕ) (i : ℕ) → i < 20 → table_at beyond i ≡ days_before i
unfolding table_at
table-calendar beyond i h =
    ground (arith, agree_at (table_at (λ j. 0)) days_before 20 i whole_table h)

-- An unlocked refresh, ten seconds or more after the last update, in a year from 2008 to 2027, sets
-- the day, hour and month to those elapsed since 1 January 2008 by the Gregorian calendar, and now
-- to the time.
pub refresh-calendar :
    (beyond : ℕ → ℕ) (c : Clock) (t : Timer) (i : ℕ)
    → t.lock_count ≡ 0
    → t.update + 10 ≤ c.time
    → c.gmt.tm_year ≡ 108 + i
    → i < 20
    → ((refresh beyond c t).day ≡ days_before i + c.gmt.tm_yday)
      × ((refresh beyond c t).hour ≡ (days_before i + c.gmt.tm_yday) * 24 + c.gmt.tm_hour)
      × ((refresh beyond c t).month ≡ i * 12 + c.gmt.tm_mon)
      × ((refresh beyond c t).now ≡ c.time)
unfolding refresh set_date
refresh-calendar beyond c t i free late year h =
    let e : c.gmt.tm_year - 108 ≡ i = omega arith in
    ground (arith, e, table-calendar beyond i h, ap (table_at beyond) e)

-- An unlocked refresh, ten seconds or more after the last update, in 2028 sets the right day if and
-- only if the number in memory behind the table of years is the entry that the table lacks.
pub refresh_2028 :
    (beyond : ℕ → ℕ) (c : Clock) (t : Timer)
    → t.lock_count ≡ 0
    → t.update + 10 ≤ c.time
    → c.gmt.tm_year ≡ 128
    → ((refresh beyond c t).day ≡ days_before 20 + c.gmt.tm_yday) ↔ (beyond 20 ≡ days_before 20)
unfolding refresh set_date table_at
refresh_2028 beyond c t free late year =
    let e : c.gmt.tm_year - 108 ≡ 20 = omega arith in ground (arith, e, ap (table_at beyond) e)

-- While it is locked, a timer does not move, whatever the clock shows.
pub refresh_locked :
    (beyond : ℕ → ℕ) (c : Clock) (t : Timer) → 0 < t.lock_count → refresh beyond c t ≡ t
unfolding refresh
refresh_locked beyond c t h = ground arith

-- unlock after lock leaves the timer as the refresh that lock makes.
pub unlock-lock :
    (beyond : ℕ → ℕ) (c : Clock) (t : Timer) → unlock (lock beyond c t) ≡ refresh beyond c t
unfolding unlock lock
unlock-lock beyond c t = ground arith

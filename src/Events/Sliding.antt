-- ===== src/Events/Sliding.antt =====
-- FieldEvents::update of src/field.cc, sample by sample.
use topy.Prelude.{ℕ, ◌-◌, ◌^◌, ◌≤◌, ◌<◌, ◌≡◌, refl, ap, arith, pos, ◌+ℤ◌, ltb, if◌then◌else◌}
use topy.StatsVector.{StatsVector, get_sample, translate, int_eq}
use topy.StatsVector.Window.{IsValid, get_sample-translate}
use topy.Events.{Date, FieldEvents, advance, update}
use topy.Timer.{Timer}

-- A known date: the vector is moved by the time since.
advance_known :
    (d now : ℕ) (v : StatsVector)
    → d ≤ now
    → now < 2 ^ 31
    → advance (pos d) (pos now) v ≡ (if ltb d now then translate v (now - d) else v)
unfolding advance int_eq ◌+ℤ◌
advance_known d now v h small = ground arith

get_sample-beyond : (v : StatsVector) (i : ℕ) → v.len_s ≤ i → IsValid v → get_sample v i ≡ pos 0
unfolding get_sample
get_sample-beyond v i h valid = ground arith

-- What sample i shows after the time from d to now.
pub get_sample-advance :
    (d now i : ℕ) (v : StatsVector)
    → d ≤ now
    → now < 2 ^ 31
    → IsValid v
    → get_sample (advance (pos d) (pos now) v) i ≡ (
        if ltb i (now - d)
        then pos 0
        else if ltb i v.len_s
        then get_sample v (i - (now - d))
        else pos 0)
get_sample-advance d now i v h small valid = ground (
  arith,
  advance_known d now v h small,
  get_sample-translate v (now - d) i valid,
  get_sample-beyond v i,
)

-- update dates a field by the timer and slides each of its three vectors by its own elapsed time:
-- sample i is the former sample i - elapsed, and 0 where nothing was counted or the array ends, if
-- the field has a date, no part of it is after the timer's, the timer's values fit an `int` and the
-- vectors are valid.
pub update_slides :
    (timer : Timer) (e : FieldEvents) (h d m i : ℕ)
    → e.date ≡ record { hour = pos h; day = pos d; month = pos m }
    → (h ≤ timer.hour) × (d ≤ timer.day) × (m ≤ timer.month)
    → (timer.hour < 2 ^ 31) × (timer.day < 2 ^ 31) × (timer.month < 2 ^ 31)
    → (IsValid e.hours) × (IsValid e.days) × (IsValid e.months)
    → let u = update timer e in
      (u.date ≡ record { hour = pos timer.hour; day = pos timer.day; month = pos timer.month })
      × (get_sample u.hours i ≡ (
          if ltb i (timer.hour - h)
          then pos 0
          else if ltb i e.hours.len_s
          then get_sample e.hours (i - (timer.hour - h))
          else pos 0))
      × (get_sample u.days i ≡ (
          if ltb i (timer.day - d)
          then pos 0
          else if ltb i e.days.len_s
          then get_sample e.days (i - (timer.day - d))
          else pos 0))
      × (get_sample u.months i ≡ (
          if ltb i (timer.month - m)
          then pos 0
          else if ltb i e.months.len_s
          then get_sample e.months (i - (timer.month - m))
          else pos 0))
unfolding update
update_slides timer e h d m i dates past small valid = (
  refl,
  rw (ap (λ (t : Date). t.hour) dates)
      (get_sample-advance h timer.hour i e.hours past.0 small.0 valid.0),
  rw (ap (λ (t : Date). t.day) dates)
      (get_sample-advance d timer.day i e.days past.1 small.1 valid.1),
  rw (ap (λ (t : Date). t.month) dates)
      (get_sample-advance m timer.month i e.months past.2 small.2 valid.2),
)

-- ===== src/Timer.antt =====
-- src/timer.cc: the clock that the fields are dated by, in hours, days and months from 1 January 2008.
pub mod Calendar
use topy.Prelude.{
  ℕ, zero, suc, ◌+◌, ◌-◌, ◌*◌, Bool, true, false, ◌||◌, List, [], ◌∷◌, ℤ, pos, negsuc, ◌+ℤ◌, negate,
  ltb_ℤ, wrap32, ltb, leb, if◌then◌else◌, get_or,
}

-- YEARS_TABLE_COUNT and first_day
abbrev pub years_table_count : ℕ
years_table_count = 20

abbrev pub first_day : List ℕ
first_day =
    0 ∷ 366 ∷ 731 ∷ 1096 ∷ 1461 ∷ 1827 ∷ 2192 ∷ 2557 ∷ 2922 ∷ 3288 ∷ 3653 ∷ 4018 ∷ 4383 ∷ 4749
    ∷ 5114 ∷ 5479 ∷ 5844 ∷ 6210 ∷ 6575 ∷ 6940 ∷ []

-- What gmtime gives of a time, as the code reads it.
pub record Tm : Type 0 where
  pub tm_year : ℕ
  pub tm_mon : ℕ
  pub tm_yday : ℕ
  pub tm_hour : ℕ

-- What time(NULL) and gmtime answer at one call.
pub record Clock : Type 0 where
  pub time : ℕ
  pub gmt : Tm

pub record Timer : Type 0 where
  pub update : ℕ
  pub lock_count : ℕ
  pub now : ℕ
  pub hour : ℕ
  pub day : ℕ
  pub month : ℕ
  pub year : ℕ

-- Reading first_day at an index; `beyond` is what follows the table in memory.
table_at : (ℕ → ℕ) → ℕ → ℕ
table_at beyond i = if ltb i years_table_count then get_or first_day i 0 else beyond i

module _ (beyond : ℕ → ℕ) where
  -- The part of refresh after the time has been taken.
  set_date : Timer → Tm → Timer
  unfolding table_at
  set_date t gmt =
      let dated = record t { year = gmt.tm_year } in
      if ltb gmt.tm_year 108
      then dated
      else if ltb years_table_count (gmt.tm_year - 108)
      then dated
      else (let year_idx = gmt.tm_year - 108 in
          let first = table_at beyond year_idx + gmt.tm_yday in
          record dated {
            month = year_idx * 12 + gmt.tm_mon;
            day = first;
            hour = first * 24 + gmt.tm_hour;
          })

  unfoldable pub refresh : Clock → Timer → Timer
  unfolding set_date
  refresh c t =
      if ltb 0 t.lock_count
      then t
      else (let ticked = record t { now = c.time } in
          if ltb c.time (t.update + 10)
          then ticked
          else set_date (record ticked { update = c.time }) c.gmt)

  pub lock : Clock → Timer → Timer
  lock c t = let r = refresh c t in record r { lock_count = r.lock_count + 1 }

pub unlock : Timer → Timer
unlock t = if ltb 0 t.lock_count then record t { lock_count = t.lock_count - 1 } else t

-- Timer::Timer; the other fields start as the memory was.
pub new_timer : Timer → Timer
new_timer memory = record memory { lock_count = 0; update = 0 }

-- ===== src/Events.antt =====
-- The class FieldEvents of src/field.cc and the macro INC_OR_EXPAND: counters of the events of a
-- user by hour, day and month. `timer` is the timer as its refresh leaves it.
pub mod Expand
pub mod Sliding
pub mod Dump
use topy.Prelude.{
  ℕ, ◌+◌, ◌%◌, ◌^◌, Bool, true, false, ℤ, pos, negsuc, ◌+ℤ◌, negate, ltb_ℤ, residue, to_int32,
  wrap32, pos_part, ◌==◌, if◌then◌else◌,
}
use topy.StatsVector.{
  SampleType, uint8_t, uint16_t, uint32_t, type_size, StatsVector, new_vector, clear, get_sample,
  inc, sum, translate, copy, int_eq,
}
use topy.StatsVector.Loops.{Cells}
use topy.StatsVector.Increment.{clip}
use topy.Timer.{Timer}

abbrev pub hours_len : ℕ
hours_len = 24

abbrev pub days_len : ℕ
days_len = 31

abbrev pub months_len : ℕ
months_len = 12

-- A wider copy of the vector, incremented; `memory` is what a new vector holds.
unfoldable pub expand : Cells → StatsVector → ℕ → ℤ → SampleType → Bool → StatsVector
expand memory v size n t unsigned = (inc (copy (new_vector t size unsigned memory) v) n).0

-- INC_OR_EXPAND(vector, size, n, type2, type4, is_unsigned). A refused inc has made the first sample.
unfoldable pub inc_or_expand :
    Cells → StatsVector → ℕ → ℤ → SampleType → SampleType → Bool → StatsVector
inc_or_expand memory v size n type2 type4 unsigned =
    let (w, done) = inc v n in
    if done
    then w
    else if type_size w.type_s == 1
    then expand memory w size n type2 unsigned
    else if type_size w.type_s == 2
    then expand memory w size n type4 unsigned
    else w

-- A date of -1 is none yet.
pub record Date : Type 0 where
  pub hour : ℤ
  pub day : ℤ
  pub month : ℤ

pub record FieldEvents : Type 0 where
  pub date : Date
  pub last_inc : ℤ
  pub hours : StatsVector
  pub days : StatsVector
  pub months : StatsVector
  pub total : ℕ

abbrev pub no_date : Date
no_date = record { hour = negsuc 0; day = negsuc 0; month = negsuc 0 }

-- The constructor with alloc.
pub new_events : Cells → FieldEvents
new_events memory = record {
  date = no_date;
  last_inc = pos 0;
  hours = new_vector uint8_t hours_len true memory;
  days = new_vector uint8_t days_len true memory;
  months = new_vector uint16_t months_len true memory;
  total = 0;
}

pub clear_events : FieldEvents → FieldEvents
clear_events e = record {
  date = no_date;
  last_inc = pos 0;
  hours = clear e.hours;
  days = clear e.days;
  months = clear e.months;
  total = 0;
}

-- One of the three blocks of update.
unfoldable pub advance : ℤ → ℤ → StatsVector → StatsVector
advance date now v =
    if int_eq date (negsuc 0)
    then v
    else (let delta = wrap32 (now +ℤ negate date) in
        if ltb_ℤ (pos 0) delta then translate v (pos_part delta) else v)

unfoldable pub update : Timer → FieldEvents → FieldEvents
unfolding advance
update timer e = record e {
  hours = advance e.date.hour (pos timer.hour) e.hours;
  days = advance e.date.day (pos timer.day) e.days;
  months = advance e.date.month (pos timer.month) e.months;
  date = record { hour = pos timer.hour; day = pos timer.day; month = pos timer.month };
}

-- total = MAX(0, (int) (total + n)), in unsigned arithmetic
pub add_total : ℕ → ℤ → ℕ
add_total total n = pos_part (clip (to_int32 ((total + residue (2 ^ 32) n) % 2 ^ 32)))

unfoldable pub add : Cells → Timer → ℤ → FieldEvents → FieldEvents
unfolding update inc_or_expand expand add_total
add memory timer n e =
    let u = update timer e in
    record u {
      total = add_total u.total n;
      hours = inc_or_expand memory u.hours hours_len n uint16_t uint32_t true;
      days = inc_or_expand memory u.days days_len n uint16_t uint32_t true;
      months = inc_or_expand memory u.months months_len n uint16_t uint32_t true;
      last_inc = pos timer.now;
    }

pub translate_events : ℕ → ℕ → ℕ → FieldEvents → FieldEvents
translate_events delta_hours delta_days delta_months e = record e {
  hours = translate e.hours delta_hours;
  days = translate e.days delta_days;
  months = translate e.months delta_months;
}

-- The rules of FieldEvents::get_score_rules, in the order of their numbers.
pub data EventsRule : Type 0 where
  hours_sum hours_last hours_penultimate hours_last2 hours_last3 hours_last6 hours_last12 :
      EventsRule
  days_sum days_last days_penultimate days_last2 days_last7 days_last15 : EventsRule
  months_sum months_last months_penultimate months_last2 months_last3 months_last6 : EventsRule
  events_total : EventsRule

-- The switch of FieldEvents::score; another number than a rule's gives -1 there.
unfoldable pub rule_score : EventsRule → FieldEvents → ℤ
rule_score hours_sum e = sum e.hours (pos 0)
rule_score hours_last e = get_sample e.hours 0
rule_score hours_penultimate e = get_sample e.hours 1
rule_score hours_last2 e = sum e.hours (pos 2)
rule_score hours_last3 e = sum e.hours (pos 3)
rule_score hours_last6 e = sum e.hours (pos 6)
rule_score hours_last12 e = sum e.hours (pos 12)
rule_score days_sum e = sum e.days (pos 0)
rule_score days_last e = get_sample e.days 0
rule_score days_penultimate e = get_sample e.days 1
rule_score days_last2 e = sum e.days (pos 2)
rule_score days_last7 e = sum e.days (pos 7)
rule_score days_last15 e = sum e.days (pos 15)
rule_score months_sum e = sum e.months (pos 0)
rule_score months_last e = get_sample e.months 0
rule_score months_penultimate e = get_sample e.months 1
rule_score months_last2 e = sum e.months (pos 2)
rule_score months_last3 e = sum e.months (pos 3)
rule_score months_last6 e = sum e.months (pos 6)
rule_score events_total e = to_int32 e.total

-- FieldEvents::score: the field is brought up to date first, and stays so.
pub score : Timer → EventsRule → FieldEvents → ℤ × FieldEvents
unfolding rule_score
score timer rule e = let u = update timer e in (rule_score rule u, u)

pub last_update : FieldEvents → ℤ
last_update e = e.last_inc

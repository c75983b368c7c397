-- ===== src/Report.antt =====
-- The reports over several users: ReportField and its subclasses of src/field.cc, and
-- VectorUsers::report of src/users.cc. `timer` is the timer as its refresh leaves it.
pub mod Totals
pub mod Counters
use topy.Prelude.{
  ℕ, ◌+◌, ◌%◌, ◌^◌, Bool, true, false, not, ◌&&◌, Option, none, some, List, [], ◌∷◌, ℤ, pos,
  residue, ◌==◌, if◌then◌else◌,
}
use topy.Events
use topy.Events.{FieldEvents, hours_len, days_len, months_len}
use topy.Field.{
  Field, field_events, field_marks, field_int, field_ulog, field_log, field_timestamp, no_field,
  FieldType, events, marks, int, uint, ulog, log, timestamp, unknown,
}
use topy.Filter.{Filter, passes}
use topy.Groups.{Groups}
use topy.StatsVector.{uint32_t, uint64_t, StatsVector, new_vector, add, count_active}
use topy.StatsVector.Loops.{Cells}
use topy.Timer.{Timer}
use topy.Users.{User, store}
use topy.Values.{FieldInt}

-- Both numbers are `unsigned int`.
pub record ReportFieldInt : Type 0 where
  pub count : ℕ
  pub total : ℕ

pub record ReportFieldEvents : Type 0 where
  pub count : ℕ
  pub hours : StatsVector
  pub days : StatsVector
  pub months : StatsVector
  pub active_hours : StatsVector
  pub active_days : StatsVector
  pub active_months : StatsVector
  pub total : ℕ

pub data Report : Type 0 where
  report_int : ReportFieldInt → Report
  report_events : ReportFieldEvents → Report

unfoldable pub new_report_int : ReportFieldInt
new_report_int = record { count = 0; total = 0 }

unfoldable pub new_report_events : Cells → ReportFieldEvents
new_report_events memory = record {
  count = 0;
  hours = new_vector uint64_t hours_len true memory;
  days = new_vector uint64_t days_len true memory;
  months = new_vector uint64_t months_len true memory;
  active_hours = new_vector uint32_t hours_len true memory;
  active_days = new_vector uint32_t days_len true memory;
  active_months = new_vector uint32_t months_len true memory;
  total = 0;
}

unfoldable pub add_int : FieldInt → ReportFieldInt → ReportFieldInt
add_int f r = record {
  count = (r.count + 1) % 2 ^ 32;
  total = (r.total + residue (2 ^ 32) f.value) % 2 ^ 32;
}

-- `e` is up to date.
unfoldable pub add_events : FieldEvents → ReportFieldEvents → ReportFieldEvents
add_events e r = record {
  count = (r.count + 1) % 2 ^ 32;
  total = (r.total + e.total) % 2 ^ 32;
  hours = add r.hours e.hours;
  days = add r.days e.days;
  months = add r.months e.months;
  active_hours = count_active r.active_hours e.hours;
  active_days = count_active r.active_days e.days;
  active_months = count_active r.active_months e.months;
}

-- add: the report, the field as it is left, and whether it is of the class of the report.
unfoldable pub report_add : Timer → Report → Field → Report × Field × Bool
unfolding add_int add_events
report_add timer (report_int r) (field_int f) = (report_int (add_int f r), field_int f, true)
report_add timer (report_events r) (field_events e) =
    let u = Events.update timer e in (report_events (add_events u r), field_events u, true)
report_add timer r f = (r, f, false)

-- The report of VectorUsers::report, by the type of the field.
unfoldable pub new_report : Cells → FieldType → Option Report
unfolding new_report_int new_report_events
new_report memory int = some (report_int new_report_int)
new_report memory uint = some (report_int new_report_int)
new_report memory events = some (report_events (new_report_events memory))
new_report memory t = none

module _ (timer : Timer) (gs : Groups) (filter : Filter) (field_id : ℕ) where
  -- A user that is there and passes the filter.
  unfoldable pub chosen : User Field → Bool
  chosen u = not u.deleted && passes gs u.id u.group filter

  unfoldable pub report_step : ℕ → (ℕ → User Field) × Report → (ℕ → User Field) × Report
  unfolding chosen report_add
  report_step a (heap, r) =
      let u = heap a in
      let (next, f, done) = report_add timer r (u.field field_id) in
      if chosen u
      then (store heap a (record u { field = λ i. if i == field_id then f else u.field i }), next)
      else (heap, r)

  unfoldable pub report_loop : List ℕ → (ℕ → User Field) × Report → (ℕ → User Field) × Report
  unfolding report_step
  report_loop [] s = s
  report_loop (a ∷ list) s = report_loop list (report_step a s)

  -- VectorUsers::report, by the type of the field; without a report the answer is false.
  unfoldable pub report :
      Cells → FieldType → (ℕ → User Field) → List ℕ → Option ((ℕ → User Field) × Report)
  unfolding report_loop new_report
  report memory t heap list = elim (new_report memory t) [
    | none ↦ none
    | some r ↦ some (report_loop list (heap, r))
  ]

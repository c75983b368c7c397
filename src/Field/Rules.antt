-- ===== src/Field/Rules.antt =====
-- The score rules of src/field.cc: their names, their numbers, and Field::score by number.
pub mod Names
use topy.Prelude.{
  ℕ, zero, suc, ◌+◌, Text, codes, text_eq, Bool, true, false, Option, none, some, List, [], ◌∷◌,
  ◌++◌, ℤ, pos, negsuc, ◌==◌, if◌then◌else◌, get_elem?,
}
use topy.Events
use topy.Events.{
  FieldEvents, EventsRule, hours_sum, hours_last, hours_penultimate, hours_last2, hours_last3,
  hours_last6, hours_last12, days_sum, days_last, days_penultimate, days_last2, days_last7,
  days_last15, months_sum, months_last, months_penultimate, months_last2, months_last3,
  months_last6, events_total,
}
use topy.Field.{
  Field, field_events, field_marks, field_int, field_ulog, field_log, field_timestamp, no_field,
}
use topy.Logs
use topy.Marks
use topy.Marks.{
  FieldMarks, MarksRule, Range, Kind, average, skyverage, counted, last, last2, last3, last6, all,
}
use topy.StdMap
use topy.StdMap.{StdMap}
use topy.Timer.{Timer}
use topy.Values.{score_int, score_timestamp}

-- The numbers FIELD_EVENTS_... and FIELD_MARKS_... in their order.
abbrev pub events_rules : List EventsRule
events_rules =
    hours_sum ∷ hours_last ∷ hours_penultimate ∷ hours_last2 ∷ hours_last3 ∷ hours_last6
    ∷ hours_last12 ∷ days_sum ∷ days_last ∷ days_penultimate ∷ days_last2 ∷ days_last7 ∷ days_last15
    ∷ months_sum ∷ months_last ∷ months_penultimate ∷ months_last2 ∷ months_last3 ∷ months_last6
    ∷ events_total ∷ []

abbrev marks_rule_of : Range → Kind → MarksRule
marks_rule_of range kind = record { range = range; kind = kind }

abbrev pub marks_rules : List MarksRule
marks_rules =
    marks_rule_of last average
    ∷ marks_rule_of last2 average
    ∷ marks_rule_of last3 average
    ∷ marks_rule_of last6 average
    ∷ marks_rule_of all average
    ∷ marks_rule_of last skyverage
    ∷ marks_rule_of last2 skyverage
    ∷ marks_rule_of last3 skyverage
    ∷ marks_rule_of last6 skyverage
    ∷ marks_rule_of all skyverage
    ∷ marks_rule_of last counted
    ∷ marks_rule_of last2 counted
    ∷ marks_rule_of last3 counted
    ∷ marks_rule_of last6 counted
    ∷ marks_rule_of all counted
    ∷ []

insert_all : List (Text × ℕ) → StdMap ℕ → StdMap ℕ
insert_all [] m = m
insert_all ((name, number) ∷ rest) m = insert_all rest (StdMap.insert name number m).0

-- FieldEvents::get_score_rules
unfoldable pub events_score_rules : StdMap ℕ
unfolding insert_all
events_score_rules =
    insert_all
      ((codes "hours::sum", 0)
        ∷ (codes "hours::last", 1)
        ∷ (codes "hours::penultimate", 2)
        ∷ (codes "hours::last2", 3)
        ∷ (codes "hours::last3", 4)
        ∷ (codes "hours::last6", 5)
        ∷ (codes "hours::last12", 6)
        ∷ (codes "days::sum", 7)
        ∷ (codes "days::last", 8)
        ∷ (codes "days::penultimate", 9)
        ∷ (codes "days::last2", 10)
        ∷ (codes "days::last7", 11)
        ∷ (codes "days::last15", 12)
        ∷ (codes "months::sum", 13)
        ∷ (codes "months::last", 14)
        ∷ (codes "months::penultimate", 15)
        ∷ (codes "months::last2", 16)
        ∷ (codes "months::last3", 17)
        ∷ (codes "months::last6", 18)
        ∷ (codes "total", 19)
        ∷ [])
      []

-- FieldMarks::get_score_rules
unfoldable pub marks_score_rules : StdMap ℕ
unfolding insert_all
marks_score_rules =
    insert_all
      ((codes "last::average", 0)
        ∷ (codes "last2::average", 1)
        ∷ (codes "last3::average", 2)
        ∷ (codes "last6::average", 3)
        ∷ (codes "sum::average", 4)
        ∷ (codes "last::count", 10)
        ∷ (codes "last2::count", 11)
        ∷ (codes "last3::count", 12)
        ∷ (codes "last6::count", 13)
        ∷ (codes "sum::count", 14)
        ∷ (codes "last::skyverage", 5)
        ∷ (codes "last2::skyverage", 6)
        ∷ (codes "last3::skyverage", 7)
        ∷ (codes "last6::skyverage", 8)
        ∷ (codes "sum::skyverage", 9)
        ∷ [])
      []

-- get_score_rules
unfoldable pub get_score_rules : Field → StdMap ℕ
unfolding events_score_rules marks_score_rules
get_score_rules (field_events f) = events_score_rules
get_score_rules (field_marks f) = marks_score_rules
get_score_rules f = []

unfoldable pub get_rule_id : Text → Field → ℤ
unfolding get_score_rules
get_rule_id name f = elim (StdMap.find name (get_score_rules f)) [
  | none ↦ negsuc 0
  | some i ↦ pos i
]

-- The rule of a number; -1, and a number too large, is none.
unfoldable pub rule_numbered : {A : Type 0} → List A → ℤ → Option A
rule_numbered rules (pos i) = get_elem? rules i
rule_numbered rules (negsuc i) = none

unfoldable pub score_events : Timer → Option EventsRule → FieldEvents → ℤ × FieldEvents
score_events timer none f = (negsuc 0, Events.update timer f)
score_events timer (some rule) f = Events.score timer rule f

unfoldable pub score_marks : Timer → Option MarksRule → FieldMarks → Option ℤ × FieldMarks
score_marks timer none f = (some (negsuc 0), Marks.update timer f)
score_marks timer (some rule) f = Marks.score timer rule f

-- score: the score, or `none` where a division stops the program, and the field as it is left.
unfoldable pub score : Timer → ℤ → Field → Option ℤ × Field
unfolding rule_numbered score_events score_marks
score timer rule (field_events f) =
    let (z, g) = score_events timer (rule_numbered events_rules rule) f in (some z, field_events g)
score timer rule (field_marks f) =
    let (z, g) = score_marks timer (rule_numbered marks_rules rule) f in (z, field_marks g)
score timer rule (field_int f) = (some (score_int f), field_int f)
score timer rule (field_ulog f) = (some (Logs.score f), field_ulog f)
score timer rule (field_log f) = (some (Logs.score f), field_log f)
score timer rule (field_timestamp f) = (some (score_timestamp f), field_timestamp f)
score timer rule no_field = (none, no_field)

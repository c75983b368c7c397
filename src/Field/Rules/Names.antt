-- ===== src/Field/Rules/Names.antt =====
-- get_rule_id and score of src/field.cc, one after the other.
use topy.Prelude.{Text, codes, Option, some, ◌++◌, ◌≡◌, refl, ap}
use topy.Events
use topy.Events.{
  FieldEvents, EventsRule, hours_sum, hours_last, hours_penultimate, hours_last2, hours_last3,
  hours_last6, hours_last12, days_sum, days_last, days_penultimate, days_last2, days_last7,
  days_last15, months_sum, months_last, months_penultimate, months_last2, months_last3,
  months_last6, events_total,
}
use topy.Field.{field_events, field_marks}
use topy.Field.Rules.{
  get_rule_id, rule_numbered, events_rules, marks_rules, score, score_events, score_marks,
}
use topy.Marks
use topy.Marks.{
  FieldMarks, MarksRule, Range, Kind, average, skyverage, counted, last, last2, last3, last6, all,
}
use topy.StdMap
use topy.Timer.{Timer}

-- The name of a rule: the vector, and the samples of it.
abbrev pub events_rule_name : EventsRule → Text
events_rule_name hours_sum = codes "hours::sum"
events_rule_name hours_last = codes "hours::last"
events_rule_name hours_penultimate = codes "hours::penultimate"
events_rule_name hours_last2 = codes "hours::last2"
events_rule_name hours_last3 = codes "hours::last3"
events_rule_name hours_last6 = codes "hours::last6"
events_rule_name hours_last12 = codes "hours::last12"
events_rule_name days_sum = codes "days::sum"
events_rule_name days_last = codes "days::last"
events_rule_name days_penultimate = codes "days::penultimate"
events_rule_name days_last2 = codes "days::last2"
events_rule_name days_last7 = codes "days::last7"
events_rule_name days_last15 = codes "days::last15"
events_rule_name months_sum = codes "months::sum"
events_rule_name months_last = codes "months::last"
events_rule_name months_penultimate = codes "months::penultimate"
events_rule_name months_last2 = codes "months::last2"
events_rule_name months_last3 = codes "months::last3"
events_rule_name months_last6 = codes "months::last6"
events_rule_name events_total = codes "total"

abbrev pub range_name : Range → Text
range_name last = codes "last"
range_name last2 = codes "last2"
range_name last3 = codes "last3"
range_name last6 = codes "last6"
range_name all = codes "sum"

abbrev pub kind_name : Kind → Text
kind_name average = codes "average"
kind_name skyverage = codes "skyverage"
kind_name counted = codes "count"

abbrev pub marks_rule_name : MarksRule → Text
marks_rule_name rule = range_name rule.range ++ (codes "::" ++ kind_name rule.kind)

events_rule_named :
    (f : FieldEvents) (rule : EventsRule)
    → rule_numbered events_rules (get_rule_id (events_rule_name rule) (field_events f)) ≡ some rule
unfolding get_rule_id rule_numbered StdMap.find StdMap.insert StdMap.place
events_rule_named f hours_sum = refl
events_rule_named f hours_last = refl
events_rule_named f hours_penultimate = refl
events_rule_named f hours_last2 = refl
events_rule_named f hours_last3 = refl
events_rule_named f hours_last6 = refl
events_rule_named f hours_last12 = refl
events_rule_named f days_sum = refl
events_rule_named f days_last = refl
events_rule_named f days_penultimate = refl
events_rule_named f days_last2 = refl
events_rule_named f days_last7 = refl
events_rule_named f days_last15 = refl
events_rule_named f months_sum = refl
events_rule_named f months_last = refl
events_rule_named f months_penultimate = refl
events_rule_named f months_last2 = refl
events_rule_named f months_last3 = refl
events_rule_named f months_last6 = refl
events_rule_named f events_total = refl

marks_rule_named :
    (f : FieldMarks) (range : Range) (kind : Kind)
    → rule_numbered marks_rules
        (get_rule_id (marks_rule_name (record { range = range; kind = kind })) (field_marks f))
      ≡ some (record { range = range; kind = kind })
unfolding get_rule_id rule_numbered StdMap.find StdMap.insert StdMap.place
marks_rule_named f last average = refl
marks_rule_named f last2 average = refl
marks_rule_named f last3 average = refl
marks_rule_named f last6 average = refl
marks_rule_named f all average = refl
marks_rule_named f last skyverage = refl
marks_rule_named f last2 skyverage = refl
marks_rule_named f last3 skyverage = refl
marks_rule_named f last6 skyverage = refl
marks_rule_named f all skyverage = refl
marks_rule_named f last counted = refl
marks_rule_named f last2 counted = refl
marks_rule_named f last3 counted = refl
marks_rule_named f last6 counted = refl
marks_rule_named f all counted = refl

pub score-events_rule_name :
    (timer : Timer) (f : FieldEvents) (rule : EventsRule)
    → score timer (get_rule_id (events_rule_name rule) (field_events f)) (field_events f)
      ≡ (let (z, g) = Events.score timer rule f in (some z, field_events g))
unfolding score score_events score_marks
score-events_rule_name timer f rule =
    ap (λ (r : Option EventsRule). let (z, g) = score_events timer r f in (some z, field_events g))
      (events_rule_named f rule)

-- For each of the 15 rules of FieldMarks, the number that get_rule_id finds under the name of its
-- range, two colons and the name of its kind makes score answer the rule of that range and kind.
pub score-marks_rule_name :
    (timer : Timer) (f : FieldMarks) (rule : MarksRule)
    → score timer (get_rule_id (marks_rule_name rule) (field_marks f)) (field_marks f)
      ≡ (let (z, g) = Marks.score timer rule f in (z, field_marks g))
unfolding score score_events score_marks
score-marks_rule_name timer f rule =
    ap (λ (r : Option MarksRule). let (z, g) = score_marks timer r f in (z, field_marks g))
      (marks_rule_named f rule.range rule.kind)

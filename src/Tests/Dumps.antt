-- ===== src/Tests/Dumps.antt =====
-- The theorems on dumps, marks and the registry of fields at concrete inputs.
use topy.Prelude.{
  ℕ, zero, suc, ◌*◌, ◌^◌, ◌≤◌, ◌≡◌, refl, inl, Text, codes, true, false, some, [], ◌∷◌, ℤ, pos,
  negsuc, ◌+ℤ◌, arith,
}
use topy.Parser.{Parser, ok}
use topy.Parser.Restoring.{done}
use topy.Parser.Reading.{lines}
use topy.StatsVector.{
  StatsVector, uint8_t, uint32_t, int8_t, int64_t, get_sample, cast, opened, new_vector,
}
use topy.StatsVector.Loops.{Cells}
use topy.Groups.{Groups, new_groups}
use topy.Groups.Dump as GroupsDump
use topy.Groups.Dump.RoundTrip as GroupsTrip
use topy.Groups.Ids.{IsFresh}
use topy.Events.{FieldEvents, EventsRule, rule_score}
use topy.Events.Dump as EventsDump
use topy.Events.Dump.RoundTrip as EventsTrip
use topy.Events.Expand.{Held}
use topy.Logs.{LogField, new_log, ulog_len}
use topy.Logs.Dump as LogsDump
use topy.Marks.{FieldMarks, MarksRule, average, counted, last, signed_ratio}
use topy.Marks
use topy.Marks.Average.{IsCurrent, kind_score-add}
use topy.Marks.Signed.{IsShort}
use topy.Timer.{Timer}

abbrev no_text : Parser
no_text = record { text = []; line = 1; error_msg = [] }

abbrev failing : Text → ℤ
failing s = pos 0

abbrev blank : Cells
blank i = pos 0

-- Two groups, one of them masked.
abbrev two_groups : Groups
two_groups = record {
  index_counter = 9;
  list =
      (codes "blue", record { id = 3; mask = 0 })
      ∷ (codes "red", record { id = 4; mask = 12 })
      ∷ [];
}

restore-dump_groups_example :
    (GroupsDump.restore failing new_groups (record no_text { text = GroupsDump.dump two_groups [] })
      ≡ done (GroupsTrip.restored_groups two_groups) (record (lines 4 no_text) { text = [] }))
    × ((GroupsTrip.restored_groups two_groups).list ≡ two_groups.list)
    × IsFresh (GroupsTrip.restored_groups two_groups)
restore-dump_groups_example =
    GroupsTrip.restore-dump_groups failing two_groups [] no_text ((refl, tt), (tt, tt))
      (
        ((ground arith, ground arith), omega arith, omega arith),
        (((ground arith, ground arith), omega arith, omega arith), tt),
      )
      (omega arith)

-- Two samples, 200 and 7.
abbrev samples : Cells
samples zero = pos 200
samples (suc i) = pos 7

abbrev bytes : ℕ → StatsVector
bytes len = record {
  type_s = uint8_t;
  len_s = len;
  is_unsigned = true;
  count = 2;
  samples = samples;
}

bytes-IsEventsVector : (len : ℕ) → 2 ≤ len → EventsTrip.IsEventsVector len (bytes len)
unfolding cast
bytes-IsEventsVector len room = record {
  stored = record { typed = go; fits = room; counted = omega arith };
  length = refl;
  unsigned = refl;
  typed = refl;
}
  where
    go : (n : ℕ) → cast uint8_t (samples n) ≡ samples n
    go zero = refl
    go (suc n) = refl

abbrev yesterday : FieldEvents
yesterday = record {
  date = record { hour = pos 34; day = pos 1; month = negsuc 0 };
  last_inc = pos 1227700000;
  hours = bytes 24;
  days = bytes 31;
  months = bytes 12;
  total = 207;
}

yesterday-IsDumped : EventsTrip.IsDumped yesterday
yesterday-IsDumped = record {
  hour = refl;
  day = refl;
  month = refl;
  last_inc = refl;
  total = omega arith;
  hours = bytes-IsEventsVector 24 (omega arith);
  days = bytes-IsEventsVector 31 (omega arith);
  months = bytes-IsEventsVector 12 (omega arith);
}

restore-dump_scores_example :
    (EventsDump.restore failing blank (record no_text { text = EventsDump.dump yesterday [] })
      ≡ ok (EventsTrip.restored_events blank yesterday) (record no_text { text = [] }))
    × ((rule : EventsRule)
        → rule_score rule (EventsTrip.restored_events blank yesterday) ≡ rule_score rule yesterday)
restore-dump_scores_example =
    EventsTrip.restore-dump_scores failing blank yesterday [] no_text yesterday-IsDumped

-- Two items with their dates.
abbrev two_dated : LogField
two_dated = record {
  items = record {
    type_s = uint32_t;
    len_s = 50;
    is_unsigned = true;
    count = 2;
    samples = samples;
  };
  dates = record { type_s = int64_t; len_s = 50; is_unsigned = true; count = 2; samples = samples };
}

two_dated-IsDumped : LogsDump.IsDumped (new_log ulog_len blank blank) two_dated
unfolding cast new_log new_vector
two_dated-IsDumped = record {
  items = record { typed = go_items; fits = omega arith; counted = omega arith };
  items_fit = omega arith;
  items_type = refl;
  dates = record { typed = go_dates; fits = omega arith; counted = omega arith };
  dates_fit = omega arith;
  dates_type = refl;
}
  where
    go_items : (n : ℕ) → cast uint32_t (samples n) ≡ samples n
    go_items zero = refl
    go_items (suc n) = refl

    go_dates : (n : ℕ) → cast int64_t (samples n) ≡ samples n
    go_dates zero = refl
    go_dates (suc n) = refl

abbrev fresh_log : LogField
fresh_log = new_log ulog_len blank blank

restore-dump_shows_example :
    (LogsDump.restore failing b'u' fresh_log
        (record no_text { text = LogsDump.dump b'u' two_dated [] })
      ≡ ok (LogsDump.refilled_log fresh_log two_dated) (record no_text { text = [] }))
    × ((n : ℕ)
        → (get_sample (LogsDump.refilled_log fresh_log two_dated).items n
            ≡ get_sample two_dated.items n)
          × (get_sample (LogsDump.refilled_log fresh_log two_dated).dates n
              ≡ get_sample two_dated.dates n))
restore-dump_shows_example =
    LogsDump.restore-dump_shows failing b'u' fresh_log two_dated [] no_text refl two_dated-IsDumped

abbrev december : Timer
december = record { update = 0; lock_count = 0; now = 0; hour = 0; day = 0; month = 11; year = 108 }

-- One mark of 120 in a byte.
abbrev one_mark : Cells
one_mark i = pos 120

abbrev one : Cells
one i = pos 1

abbrev marked : FieldMarks
marked = record {
  month = pos 11;
  months_num = record {
    type_s = int8_t;
    len_s = 6;
    is_unsigned = false;
    count = 1;
    samples = one_mark;
  };
  months_denom = record {
    type_s = uint8_t;
    len_s = 6;
    is_unsigned = true;
    count = 1;
    samples = one;
  };
}

marked-IsCurrent : IsCurrent december marked (pos 120) 1
unfolding get_sample opened
marked-IsCurrent = record {
  month = refl;
  num_signed = refl;
  num_short = short;
  num_first = refl;
  num_type = inl refl;
  denom_unsigned = refl;
  denom_counts = record { held = low };
  denom_first = refl;
  denom_type = inl refl;
}
  where
    short : (i : ℕ) → IsShort (get_sample marked.months_num i)
    short zero = (omega arith, omega arith)
    short (suc i) = ground arith

    low : (i : ℕ) → Held (2 ^ 16) (get_sample marked.months_denom i)
    low zero = omega arith
    low (suc i) = ground arith

kind_score-add_example :
    (Marks.kind_score counted (pos 1) (Marks.add blank december (negsuc 20) marked) ≡ some (pos 2))
    × (Marks.kind_score average (pos 1) (Marks.add blank december (negsuc 20) marked)
        ≡ some (signed_ratio false (99 * 1000) 2))
unfolding ◌+ℤ◌
kind_score-add_example =
    kind_score-add blank december marked (pos 120) (negsuc 20) (pos 99) 1 marked-IsCurrent
      (omega arith, omega arith) refl (omega arith, omega arith) (omega arith)

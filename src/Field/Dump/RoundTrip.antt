-- ===== src/Field/Dump/RoundTrip.antt =====
-- dump and restore of a field of src/field.cc, one after the other, by its class.
use topy.Prelude.{◌^◌, ◌≡◌, refl, ap, ◌∙◌, Text, Bool, true, ℤ}
use topy.Decimal.{in_range}
use topy.Events.Dump as EventsDump
use topy.Events.Dump.RoundTrip as EventsTrip
use topy.Field.{Field, field_events, field_marks, field_int, field_ulog, field_log, field_timestamp}
use topy.Field.Dump.{dump, restore}
use topy.Logs.Dump as LogsDump
use topy.Marks
use topy.Marks.RoundTrip as MarksTrip
use topy.Parser.{Parser, ok}
use topy.Parser.Reading.{bind_ok}
use topy.StatsVector.Loops.{Cells}
use topy.Values.{restore_int, restore_timestamp}
use topy.Values.RoundTrip.{restore_int-dump_int, restore_timestamp-dump_timestamp}

-- f can be read back into g, a field of the same class.
abbrev pub IsDumped : Field → Field → Type 0
IsDumped (field_events g) (field_events f) = EventsTrip.IsDumped f
IsDumped (field_marks g) (field_marks f) = MarksTrip.IsDumped f
IsDumped (field_int g) (field_int f) =
    (g.is_unsigned ≡ f.is_unsigned) × (in_range (2 ^ 31) f.value ≡ true)
IsDumped (field_ulog g) (field_ulog f) = LogsDump.IsDumped g f
IsDumped (field_log g) (field_log f) = LogsDump.IsDumped g f
IsDumped (field_timestamp g) (field_timestamp f) = in_range (2 ^ 31) f.value ≡ true
IsDumped g f = ⊥

-- The field f as it is read back into g.
unfoldable pub restored : Cells → Field → Field → Field
restored memory g (field_events f) = field_events (EventsTrip.restored_events memory f)
restored memory g (field_marks f) = field_marks (MarksTrip.restored_marks memory f)
restored memory (field_ulog g) (field_ulog f) = field_ulog (LogsDump.refilled_log g f)
restored memory (field_log g) (field_log f) = field_log (LogsDump.refilled_log g f)
restored memory g f = f

pub restore-dump :
    (failed : Text → ℤ) (memory : Cells) (g f : Field) (rest : Text) (p : Parser)
    → IsDumped g f
    → restore failed memory g (record p { text = dump f rest })
      ≡ ok (restored memory g f) (record p { text = rest })
unfolding restore dump restored
restore-dump failed memory (field_events g) (field_events f) rest p h =
    bind_ok (EventsDump.restore failed memory) _ _ _ _
      (EventsTrip.restore-dump failed memory f rest p h)
restore-dump failed memory (field_marks g) (field_marks f) rest p h =
    bind_ok (Marks.restore failed memory) _ _ _ _ (MarksTrip.restore-dump failed memory f rest p h)
restore-dump failed memory (field_int g) (field_int f) rest p h =
    bind_ok (restore_int failed g) _ _ _ _ (restore_int-dump_int failed f g rest p h.1)
    ∙ ap (λ (u : Bool). ok (field_int (record f { is_unsigned = u })) (record p { text = rest }))
        h.0
restore-dump failed memory (field_ulog g) (field_ulog f) rest p h =
    bind_ok (LogsDump.restore failed b'u' g) _ _ _ _
      (LogsDump.restore-dump failed b'u' g f rest p refl h)
restore-dump failed memory (field_log g) (field_log f) rest p h =
    bind_ok (LogsDump.restore failed b'b' g) _ _ _ _
      (LogsDump.restore-dump failed b'b' g f rest p refl h)
restore-dump failed memory (field_timestamp g) (field_timestamp f) rest p h =
    bind_ok (restore_timestamp failed) _ _ _ _ (restore_timestamp-dump_timestamp failed f rest p h)
restore-dump failed memory g f rest p h = absurd h

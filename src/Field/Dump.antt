-- ===== src/Field/Dump.antt =====
-- dump and restore of a field, by its class.
pub mod RoundTrip
use topy.Prelude.{ℕ, Text, List, [], ◌∷◌, ℤ}
use topy.Events.Dump as EventsDump
use topy.Field.{
  Field, field_events, field_marks, field_int, field_ulog, field_log, field_timestamp, no_field,
}
use topy.Logs.Dump as LogsDump
use topy.Marks
use topy.Parser.{Parse, Parser, Parsed, ok, undefined, pure, ◌>>=◌}
use topy.StatsVector.Loops.{Cells}
use topy.Values.{dump_int, dump_timestamp, restore_int, restore_timestamp}

unfoldable pub dump : Field → Text → Text
dump (field_events f) rest = EventsDump.dump f rest
dump (field_marks f) rest = Marks.dump f rest
dump (field_int f) rest = dump_int f rest
dump (field_ulog f) rest = LogsDump.dump b'u' f rest
dump (field_log f) rest = LogsDump.dump b'b' f rest
dump (field_timestamp f) rest = dump_timestamp f rest
dump no_field rest = rest

-- restore into a field, whose class decides what is read.
unfoldable pub restore : (Text → ℤ) → Cells → Field → Parse Field
restore failed memory (field_events f) =
    EventsDump.restore failed memory >>= λ g. pure (field_events g)
restore failed memory (field_marks f) = Marks.restore failed memory >>= λ g. pure (field_marks g)
restore failed memory (field_int f) = restore_int failed f >>= λ g. pure (field_int g)
restore failed memory (field_ulog f) = LogsDump.restore failed b'u' f >>= λ g. pure (field_ulog g)
restore failed memory (field_log f) = LogsDump.restore failed b'b' f >>= λ g. pure (field_log g)
restore failed memory (field_timestamp f) =
    restore_timestamp failed >>= λ g. pure (field_timestamp g)
restore failed memory no_field = λ p. undefined

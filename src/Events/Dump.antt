-- ===== src/Events/Dump.antt =====
-- FieldEvents::dump and FieldEvents::restore of src/field.cc. A dump is the text that is written in
-- front of `rest`, which is written next; a new vector is made over the memory given.
pub mod RoundTrip
use topy.Prelude.{ℕ, ◌^◌, Text, codes, Bool, true, false, List, [], ◌∷◌, ◌++◌, ℤ, pos, residue}
use topy.Decimal.{int_text}
use topy.Parser.{Parse, Parser, Parsed, ok, pure, ◌>>=◌, ◌>>◌, read_int, waitfor}
use topy.StatsVector.{SampleType, uint8_t, uint16_t, uint32_t, StatsVector}
use topy.StatsVector.Loops.{Cells}
use topy.StatsVector.Dump.{restore_vector}
use topy.StatsVector.Dump.Whole.{braced}
use topy.Events.{Date, FieldEvents, hours_len, days_len, months_len}

dump_vectors : FieldEvents → Text → Text
dump_vectors e rest =
    b':'
    ∷ b'h'
    ∷ braced e.hours (b':' ∷ b'd' ∷ braced e.days (b':' ∷ b'm' ∷ braced e.months (b'}' ∷ rest)))

unfoldable pub dump : FieldEvents → Text → Text
unfolding dump_vectors
dump e rest =
    b'v'
    ∷ b'{'
    ∷ b't'
    ∷ b'{'
    ∷ (int_text e.date.hour
        ++ (b':'
            ∷ (int_text e.date.day
                ++ (b':'
                    ∷ (int_text e.date.month
                        ++ (b'}'
                            ∷ b':'
                            ∷ (int_text e.last_inc
                                ++ (b':' ∷ (int_text (pos e.total) ++ dump_vectors e rest)))))))))

module _ (failed : Text → ℤ) (memory : Cells) where
  restore_events_vector : ℕ → Parse StatsVector
  restore_events_vector len = restore_vector failed memory len uint8_t uint16_t uint32_t true

  -- The part of restore behind the numbers.
  restore_vectors : Date → ℤ → ℤ → Parse FieldEvents
  unfolding restore_events_vector
  restore_vectors date last_inc total = do
    waitfor b':'
    waitfor b'h'
    hours ← restore_events_vector hours_len
    waitfor b':'
    waitfor b'd'
    days ← restore_events_vector days_len
    waitfor b':'
    waitfor b'm'
    months ← restore_events_vector months_len
    waitfor b'}'
    pure (record {
      date = date;
      last_inc = last_inc;
      hours = hours;
      days = days;
      months = months;
      total = residue (2 ^ 32) total;
    })

  unfoldable pub restore : Parse FieldEvents
  unfolding restore_vectors
  restore = do
    waitfor b'v'
    waitfor b'{'
    waitfor b't'
    waitfor b'{'
    hour ← read_int failed
    waitfor b':'
    day ← read_int failed
    waitfor b':'
    month ← read_int failed
    waitfor b'}'
    waitfor b':'
    last_inc ← read_int failed
    waitfor b':'
    total ← read_int failed
    restore_vectors (record { hour = hour; day = day; month = month }) last_inc total

-- ===== src/Events/Dump/RoundTrip.antt =====
-- FieldEvents::dump and FieldEvents::restore of src/field.cc, one after the other.
use topy.Prelude.{ℕ, ◌^◌, ◌<◌, ◌≡◌, refl, ap, ◌∙◌, Text, true, ℤ, pos, residue, arith, some}
use topy.Decimal.{in_range}
use topy.Parser.{Parse, Parser, ok, ◌>>=◌, waitfor}
use topy.Parser.Reading.{read_int-then}
use topy.StatsVector.{uint8_t, uint16_t, uint32_t, StatsVector, type_size}
use topy.StatsVector.Loops.{Cells}
use topy.StatsVector.Dump.{restored_type}
use topy.StatsVector.Dump.Whole.{
  IsStored, braced, restored, restore_vector-then, get_sample-restored, sum-restored,
}
use topy.Events.{
  FieldEvents, hours_len, days_len, months_len, EventsRule, rule_score, hours_sum, hours_last,
  hours_penultimate, hours_last2, hours_last3, hours_last6, hours_last12, days_sum, days_last,
  days_penultimate, days_last2, days_last7, days_last15, months_sum, months_last,
  months_penultimate, months_last2, months_last3, months_last6, events_total,
}
use topy.Events.Dump.{dump_vectors, dump, restore_events_vector, restore_vectors, restore}

-- A vector that a field makes with this length.
pub record IsEventsVector (len : ℕ) (v : StatsVector) : Type 0 where
  pub stored : IsStored v
  pub length : v.len_s ≡ len
  pub unsigned : v.is_unsigned ≡ true
  pub typed : restored_type uint8_t uint16_t uint32_t (pos (type_size v.type_s)) ≡ some v.type_s

-- The numbers are values of `int`, which is what a restore reads.
pub record IsDumped (e : FieldEvents) : Type 0 where
  pub hour : in_range (2 ^ 31) e.date.hour ≡ true
  pub day : in_range (2 ^ 31) e.date.day ≡ true
  pub month : in_range (2 ^ 31) e.date.month ≡ true
  pub last_inc : in_range (2 ^ 31) e.last_inc ≡ true
  pub total : e.total < 2 ^ 31
  pub hours : IsEventsVector hours_len e.hours
  pub days : IsEventsVector days_len e.days
  pub months : IsEventsVector months_len e.months

-- The counters of e, over new memory.
unfoldable pub restored_events : Cells → FieldEvents → FieldEvents
restored_events memory e = record e {
  hours = restored memory e.hours;
  days = restored memory e.days;
  months = restored memory e.months;
}

module _ (failed : Text → ℤ) (memory : Cells) where
  events_vector :
      {B : Type 0}
      → (k : StatsVector → Parse B) (len : ℕ) (v : StatsVector) (rest : Text) (p : Parser)
      → IsEventsVector len v
      → (restore_events_vector failed memory len >>= k) (record p { text = braced v rest })
        ≡ k (restored memory v) (record p { text = rest })
  unfolding restore_events_vector
  events_vector k len v rest p h =
      restore_vector-then failed memory k len true v uint8_t uint16_t uint32_t rest p h.stored
        h.length h.unsigned h.typed

  same_total : (n : ℕ) → n < 2 ^ 31 → residue (2 ^ 32) (pos n) ≡ n
  same_total n h = ground arith

  restore_vectors-dump :
      (e : FieldEvents) (rest : Text) (p : Parser)
      → IsDumped e
      → restore_vectors failed memory e.date e.last_inc
          (pos e.total)
          (record p { text = dump_vectors e rest })
        ≡ ok (restored_events memory e) (record p { text = rest })
  unfolding restore_vectors dump_vectors restored_events waitfor
  restore_vectors-dump e rest p h =
      events_vector _ hours_len e.hours _ p h.hours
      ∙ events_vector _ days_len e.days _ p h.days
      ∙ events_vector _ months_len e.months _ p h.months
      ∙ ap
          (λ (n : ℕ).
            ok (record (restored_events memory e) { total = n }) (record p { text = rest }))
          (same_total e.total h.total)

  pub restore-dump :
      (e : FieldEvents) (rest : Text) (p : Parser)
      → IsDumped e
      → restore failed memory (record p { text = dump e rest })
        ≡ ok (restored_events memory e) (record p { text = rest })
  unfolding restore dump waitfor dump_vectors
  restore-dump e rest p h =
      read_int-then failed _ e.date.hour b':' _ p h.hour refl
      ∙ read_int-then failed _ e.date.day b':' _ p h.day refl
      ∙ read_int-then failed _ e.date.month b'}' _ p h.month refl
      ∙ read_int-then failed _ e.last_inc b':' _ p h.last_inc refl
      ∙ read_int-then failed _ (pos e.total) b':' _ p (total_fits e.total h.total) refl
      ∙ restore_vectors-dump e rest p h
    where
      total_fits : (n : ℕ) → n < 2 ^ 31 → in_range (2 ^ 31) (pos n) ≡ true
      total_fits n h = ground arith

-- Every rule scores the restored counters as it scored the dumped ones.
pub rule_score-restored_events :
    (memory : Cells) (e : FieldEvents) (rule : EventsRule)
    → IsDumped e
    → rule_score rule (restored_events memory e) ≡ rule_score rule e
unfolding rule_score restored_events
rule_score-restored_events memory e hours_sum h = sum-restored memory e.hours 0 h.hours.stored
rule_score-restored_events memory e hours_last h =
    get_sample-restored memory e.hours 0 h.hours.stored
rule_score-restored_events memory e hours_penultimate h =
    get_sample-restored memory e.hours 1 h.hours.stored
rule_score-restored_events memory e hours_last2 h = sum-restored memory e.hours 2 h.hours.stored
rule_score-restored_events memory e hours_last3 h = sum-restored memory e.hours 3 h.hours.stored
rule_score-restored_events memory e hours_last6 h = sum-restored memory e.hours 6 h.hours.stored
rule_score-restored_events memory e hours_last12 h = sum-restored memory e.hours 12 h.hours.stored
rule_score-restored_events memory e days_sum h = sum-restored memory e.days 0 h.days.stored
rule_score-restored_events memory e days_last h = get_sample-restored memory e.days 0 h.days.stored
rule_score-restored_events memory e days_penultimate h =
    get_sample-restored memory e.days 1 h.days.stored
rule_score-restored_events memory e days_last2 h = sum-restored memory e.days 2 h.days.stored
rule_score-restored_events memory e days_last7 h = sum-restored memory e.days 7 h.days.stored
rule_score-restored_events memory e days_last15 h = sum-restored memory e.days 15 h.days.stored
rule_score-restored_events memory e months_sum h = sum-restored memory e.months 0 h.months.stored
rule_score-restored_events memory e months_last h =
    get_sample-restored memory e.months 0 h.months.stored
rule_score-restored_events memory e months_penultimate h =
    get_sample-restored memory e.months 1 h.months.stored
rule_score-restored_events memory e months_last2 h = sum-restored memory e.months 2 h.months.stored
rule_score-restored_events memory e months_last3 h = sum-restored memory e.months 3 h.months.stored
rule_score-restored_events memory e months_last6 h = sum-restored memory e.months 6 h.months.stored
rule_score-restored_events memory e events_total h = refl

-- FieldEvents::restore reads the text that FieldEvents::dump writes, whatever follows it, and every
-- score rule gives of the restored counters what it gave of the dumped ones; the numbers must be in
-- the range of `int`, and the vectors be unsigned, of the lengths of the field and of a type that
-- its restore makes, with samples that are values of that type and at most 255 of them in use.
pub restore-dump_scores :
    (failed : Text → ℤ) (memory : Cells) (e : FieldEvents) (rest : Text) (p : Parser)
    → IsDumped e
    → (restore failed memory (record p { text = dump e rest })
        ≡ ok (restored_events memory e) (record p { text = rest }))
      × ((rule : EventsRule) → rule_score rule (restored_events memory e) ≡ rule_score rule e)
restore-dump_scores failed memory e rest p h =
    (restore-dump failed memory e rest p h, λ rule. rule_score-restored_events memory e rule h)

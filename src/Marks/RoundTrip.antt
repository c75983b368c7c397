-- ===== src/Marks/RoundTrip.antt =====
-- FieldMarks::dump and FieldMarks::restore of src/field.cc, one after the other.
use topy.Prelude.{ℕ, ◌^◌, ◌≡◌, refl, ap, ◌∙◌, Text, true, false, some, ℤ, pos}
use topy.Decimal.{in_range}
use topy.Parser.{Parser, ok, waitfor}
use topy.Parser.Reading.{read_int-then}
use topy.StatsVector.{uint8_t, uint16_t, uint32_t, int8_t, int16_t, int32_t, type_size}
use topy.StatsVector.Loops.{Cells}
use topy.StatsVector.Dump.{restored_type}
use topy.StatsVector.Dump.Whole.{IsStored, restored, restore_vector-then, sum-restored}
use topy.Marks.{FieldMarks, marks_len, dump, restore, Kind, average, skyverage, counted, kind_score}

-- What a restore needs to find the vectors again.
pub record IsDumped (f : FieldMarks) : Type 0 where
  pub month : in_range (2 ^ 31) f.month ≡ true
  pub num : IsStored f.months_num
  pub num_len : f.months_num.len_s ≡ marks_len
  pub num_signed : f.months_num.is_unsigned ≡ false
  pub num_type :
      restored_type int8_t int16_t int32_t (pos (type_size f.months_num.type_s))
      ≡ some f.months_num.type_s
  pub denom : IsStored f.months_denom
  pub denom_len : f.months_denom.len_s ≡ marks_len
  pub denom_unsigned : f.months_denom.is_unsigned ≡ true
  pub denom_type :
      restored_type uint8_t uint16_t uint32_t (pos (type_size f.months_denom.type_s))
      ≡ some f.months_denom.type_s

-- The marks of f, over new memory.
unfoldable pub restored_marks : Cells → FieldMarks → FieldMarks
restored_marks memory f = record f {
  months_num = restored memory f.months_num;
  months_denom = restored memory f.months_denom;
}

module _ (failed : Text → ℤ) (memory : Cells) where
  pub restore-dump :
      (f : FieldMarks) (rest : Text) (p : Parser)
      → IsDumped f
      → restore failed memory (record p { text = dump f rest })
        ≡ ok (restored_marks memory f) (record p { text = rest })
  unfolding restore dump waitfor restored_marks
  restore-dump f rest p h =
      read_int-then failed _ f.month b'}' _ p h.month refl
      ∙ restore_vector-then failed memory _ marks_len false f.months_num int8_t int16_t int32_t _ p
          h.num h.num_len h.num_signed h.num_type
      ∙ restore_vector-then failed memory _ marks_len true f.months_denom uint8_t uint16_t uint32_t
          _ p h.denom h.denom_len h.denom_unsigned h.denom_type

-- Every rule scores the restored marks as it scored the dumped ones.
pub kind_score-restored_marks :
    (memory : Cells) (f : FieldMarks) (kind : Kind) (n : ℕ)
    → IsDumped f
    → kind_score kind (pos n) (restored_marks memory f) ≡ kind_score kind (pos n) f
unfolding kind_score restored_marks
kind_score-restored_marks memory f average n h =
    rw (sum-restored memory f.months_num n h.num, sum-restored memory f.months_denom n h.denom) refl
kind_score-restored_marks memory f skyverage n h =
    rw (sum-restored memory f.months_num n h.num, sum-restored memory f.months_denom n h.denom) refl
kind_score-restored_marks memory f counted n h =
    ap some (sum-restored memory f.months_denom n h.denom)

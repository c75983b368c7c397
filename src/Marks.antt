-- ===== src/Marks.antt =====
-- The class FieldMarks of src/field.cc: the sum and the number of the marks of a user, by month.
-- `timer` is the timer as its refresh leaves it.

pub mod Signed
pub mod Average
pub mod RoundTrip
use topy.Prelude.{
  ℕ, zero, suc, ◌+◌, ◌*◌, ◌/◌, ◌^◌, Text, Bool, true, false, not, ◌&&◌, Option, none, some, List,
  [], ◌∷◌, ◌++◌, ℤ, pos, negsuc, ◌+ℤ◌, negate, pos_part, neg_part, wrap32, ltb, ◌==◌, if◌then◌else◌,
}
use topy.Decimal.{int_text}
use topy.Events.{inc_or_expand, advance}
use topy.Parser.{Parse, Parser, Parsed, ok, pure, ◌>>=◌, ◌>>◌, read_int, waitfor}
use topy.StatsVector.{
  SampleType, uint8_t, uint16_t, uint32_t, int8_t, int16_t, int32_t, StatsVector, new_vector, clear,
  sum, translate, int_eq,
}
use topy.StatsVector.Dump.{restore_vector}
use topy.StatsVector.Dump.Whole.{braced}
use topy.StatsVector.Loops.{Cells}
use topy.Timer.{Timer}

abbrev pub marks_len : ℕ
marks_len = 6

-- A month of -1 is none yet.
pub record FieldMarks : Type 0 where
  pub month : ℤ
  pub months_num : StatsVector
  pub months_denom : StatsVector

-- The constructor with alloc.
unfoldable pub new_marks : Cells → FieldMarks
new_marks memory = record {
  month = negsuc 0;
  months_num = new_vector int8_t marks_len false memory;
  months_denom = new_vector uint8_t marks_len true memory;
}

unfoldable pub clear_marks : FieldMarks → FieldMarks
clear_marks f = record {
  month = negsuc 0;
  months_num = clear f.months_num;
  months_denom = clear f.months_denom;
}

unfoldable pub translate_marks : ℕ → FieldMarks → FieldMarks
translate_marks delta f = record f {
  months_num = translate f.months_num delta;
  months_denom = translate f.months_denom delta;
}

-- Both vectors move by the months since the last update.
unfoldable pub update : Timer → FieldMarks → FieldMarks
update timer f = record {
  month = pos timer.month;
  months_num = advance f.month (pos timer.month) f.months_num;
  months_denom = advance f.month (pos timer.month) f.months_denom;
}

unfoldable pub add : Cells → Timer → ℤ → FieldMarks → FieldMarks
unfolding update
add memory timer n f =
    let u = update timer f in
    record u {
      months_num = inc_or_expand memory u.months_num marks_len n int16_t int32_t false;
      months_denom = inc_or_expand memory u.months_denom marks_len (pos 1) uint16_t uint32_t true;
    }

-- a * b and a / b of int, the division towards 0; `none` is a division that stops the program.
abbrev pub signed_ratio : Bool → ℕ → ℕ → ℤ
signed_ratio minus zero d = pos 0
signed_ratio minus (suc n) zero = pos 0
signed_ratio minus (suc n) (suc d) = elim (suc n / suc d) [
  | zero ↦ pos 0
  | suc q ↦ if minus then negsuc q else pos (suc q)
]

abbrev pub magnitude : ℤ → ℕ
magnitude (pos n) = n
magnitude (negsuc n) = suc n

abbrev pub is_negative : ℤ → Bool
is_negative (pos n) = false
is_negative (negsuc n) = true

unfoldable pub divide : ℤ → ℤ → Option ℤ
divide a (pos zero) = none
divide a b =
    if is_negative a && is_negative b && magnitude a == 2 ^ 31 && magnitude b == 1
    then none
    else some (
        let minus = if is_negative a then not (is_negative b) else is_negative b in
        signed_ratio minus (magnitude a) (magnitude b))

-- `months_num->sum(n) * 1000`, wrapped
abbrev pub thousandfold : ℤ → ℤ
thousandfold (pos n) = wrap32 (pos (n * 1000))
thousandfold (negsuc n) = wrap32 (negate (pos (suc n * 1000)))

-- The rules of FieldMarks::get_score_rules.
pub data Kind : Type 0 where
  average skyverage counted : Kind

pub data Range : Type 0 where
  last last2 last3 last6 all : Range

pub record MarksRule : Type 0 where
  pub range : Range
  pub kind : Kind

abbrev pub months_of : Range → ℤ
months_of last = pos 1
months_of last2 = pos 2
months_of last3 = pos 3
months_of last6 = pos 6
months_of all = pos 0

-- The three macros of FieldMarks::score; another number than a rule's gives -1 there.
unfoldable pub kind_score : Kind → ℤ → FieldMarks → Option ℤ
unfolding divide
kind_score average n f =
    let denom = sum f.months_denom n in
    if int_eq denom (pos 0) then some (pos 0) else divide (thousandfold (sum f.months_num n)) denom
kind_score skyverage n f =
    divide (thousandfold (sum f.months_num n)) (wrap32 (sum f.months_denom n +ℤ pos 1))
kind_score counted n f = some (sum f.months_denom n)

unfoldable pub score : Timer → MarksRule → FieldMarks → Option ℤ × FieldMarks
unfolding update kind_score
score timer rule f = let u = update timer f in (kind_score rule.kind (months_of rule.range) u, u)

unfoldable pub dump : FieldMarks → Text → Text
dump f rest =
    b'm'
    ∷ b'a'
    ∷ b'{'
    ∷ b't'
    ∷ b'{'
    ∷ (int_text f.month
        ++ (b'}'
            ∷ b':'
            ∷ b'n'
            ∷ b'u'
            ∷ braced f.months_num (b':' ∷ b'd' ∷ b'e' ∷ braced f.months_denom (b'}' ∷ rest))))

module _ (failed : Text → ℤ) (memory : Cells) where
  unfoldable pub restore : Parse FieldMarks
  restore = do
    waitfor b'm'
    waitfor b'a'
    waitfor b'{'
    waitfor b't'
    waitfor b'{'
    month ← read_int failed
    waitfor b'}'
    waitfor b':'
    waitfor b'n'
    waitfor b'u'
    num ← restore_vector failed memory marks_len int8_t int16_t int32_t false
    waitfor b':'
    waitfor b'd'
    waitfor b'e'
    denom ← restore_vector failed memory marks_len uint8_t uint16_t uint32_t true
    waitfor b'}'
    pure (record { month = month; months_num = num; months_denom = denom })

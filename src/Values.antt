-- ===== src/Values.antt =====
-- The classes FieldInt and FieldTimestamp of src/field.cc, and the numbers of src/stringutils.cc that
-- their set reads.
pub mod RoundTrip
use topy.Prelude.{
  ℕ, ◌+◌, ◌*◌, ◌-◌, ◌^◌, Text, Bool, true, false, ◌&&◌, Option, none, some, List, [], ◌∷◌, ◌++◌, ℤ,
  pos, negsuc, ◌+ℤ◌, ltb_ℤ, residue, wrap32, ltb, leb, ◌==◌, ◌||◌, if◌then◌else◌,
}
use topy.Decimal.{is_digit, int_text, spelled, signed, in_range}
use topy.Parser.{Parse, Parser, Parsed, ok, pure, ◌>>=◌, ◌>>◌, read_int, waitfor}
use topy.Timer.{Timer}
use topy.WordsParser.{span}

-- What isspace of the C locale accepts.
abbrev pub is_space : ℕ → Bool
is_space c = c == 32 || (leb 9 c && leb c 13)

-- The sign and the digits that oss >> rv reads; without digits it fails.
unfoldable pub scan_digits : Bool → Text → Option (Bool × ℕ)
unfolding span
scan_digits minus s = elim ((span is_digit s).0) [
  | [] ↦ none
  | c ∷ t ↦ some (minus, spelled 0 (c ∷ t))
]

unfoldable pub scan_sign : Text → Option (Bool × ℕ)
unfolding scan_digits
scan_sign [] = none
scan_sign (c ∷ s) =
    if c == b'-'
    then scan_digits true s
    else if c == b'+'
    then scan_digits false s
    else scan_digits false (c ∷ s)

unfoldable pub scan : Text → Option (Bool × ℕ)
unfolding span scan_sign
scan s = scan_sign (span is_space s).1

-- What to_int and to_uint make of the number that was read: one out of the range fails, too, and in
-- an unsigned number a minus sign negates modulo 2^32.
unfoldable pub int_of : Option (Bool × ℕ) → ℤ
int_of none = pos 0
int_of (some (minus, n)) = if in_range (2 ^ 31) (signed minus n) then signed minus n else pos 0

unfoldable pub uint_of : Option (Bool × ℕ) → ℕ
uint_of none = 0
uint_of (some (minus, n)) = if ltb n (2 ^ 32) then residue (2 ^ 32) (signed minus n) else 0

-- StringUtils::to_int
unfoldable pub to_int : Text → ℤ
unfolding scan int_of
to_int s = int_of (scan s)

-- StringUtils::to_uint
unfoldable pub to_uint : Text → ℕ
unfolding scan uint_of
to_uint s = uint_of (scan s)

pub record FieldInt : Type 0 where
  pub value : ℤ
  pub is_unsigned : Bool

unfoldable pub new_int : Bool → FieldInt
new_int unsigned = record { value = pos 0; is_unsigned = unsigned }

-- set(int)
unfoldable pub set_value : ℤ → FieldInt → FieldInt
set_value z f = record f { value = if f.is_unsigned && ltb_ℤ z (pos 0) then pos 0 else z }

unfoldable pub add_int : ℤ → FieldInt → FieldInt
unfolding set_value
add_int n f = set_value (wrap32 (f.value +ℤ n)) f

-- set(std::string)
unfoldable pub set_int : Text → FieldInt → FieldInt × Bool
unfolding set_value to_int
set_int s f = (set_value (to_int s) f, true)

unfoldable pub clear_int : FieldInt → FieldInt
clear_int f = record f { value = pos 0 }

pub score_int : FieldInt → ℤ
score_int f = f.value

unfoldable pub dump_int : FieldInt → Text → Text
dump_int f rest = b'i' ∷ b'{' ∷ (int_text f.value ++ (b'}' ∷ rest))

pub record FieldTimestamp : Type 0 where
  pub value : ℤ

unfoldable pub new_timestamp : FieldTimestamp
new_timestamp = record { value = pos 0 }

-- `timer` as its refresh leaves it
unfoldable pub add_timestamp : Timer → FieldTimestamp → FieldTimestamp
add_timestamp timer f = record { value = pos timer.now }

unfoldable pub set_timestamp : Text → FieldTimestamp → FieldTimestamp × Bool
unfolding to_uint
set_timestamp s f = (record { value = pos (to_uint s) }, true)

unfoldable pub clear_timestamp : FieldTimestamp → FieldTimestamp
clear_timestamp f = record { value = pos 0 }

-- UserScore is `int`.
pub score_timestamp : FieldTimestamp → ℤ
score_timestamp f = wrap32 f.value

unfoldable pub dump_timestamp : FieldTimestamp → Text → Text
dump_timestamp f rest = b't' ∷ b'{' ∷ (int_text f.value ++ (b'}' ∷ rest))

module _ (failed : Text → ℤ) where
  unfoldable pub restore_int : FieldInt → Parse FieldInt
  restore_int f = do
    waitfor b'i'
    waitfor b'{'
    z ← read_int failed
    waitfor b'}'
    pure (record f { value = z })

  unfoldable pub restore_timestamp : Parse FieldTimestamp
  restore_timestamp = do
    waitfor b't'
    waitfor b'{'
    z ← read_int failed
    waitfor b'}'
    pure (record { value = z })

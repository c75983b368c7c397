-- ===== src/Decimal.antt =====
-- Integers as std::stringstream writes them and reads them back: operator<< and operator>> of the
-- language's library, as the dumps use them.
pub mod RoundTrip
use topy.Prelude.{
  ℕ, zero, suc, ◌+◌, ◌-◌, ◌*◌, ◌/◌, ◌%◌, ◌^◌, Text, Bool, true, false, ◌&&◌, ◌||◌, List, [], ◌∷◌,
  ◌++◌, ℤ, pos, negsuc, ltb, leb, ◌==◌, if◌then◌else◌,
}
use topy.WordsParser.{span}

abbrev pub is_digit : ℕ → Bool
is_digit c = leb b'0' c && leb c b'9'

-- With fuel above n, the loop ends at the first digit.
unfoldable pub digits_loop : ℕ → ℕ → Text
digits_loop zero n = []
digits_loop (suc fuel) n = elim (ltb n 10) [
  | true ↦ (b'0' + n) ∷ []
  | false ↦ digits_loop fuel (n / 10) ++ ((b'0' + n % 10) ∷ [])
]

unfoldable pub digits : ℕ → Text
unfolding digits_loop
digits n = digits_loop (suc n) n

-- out << (int) z
unfoldable pub int_text : ℤ → Text
unfolding digits
int_text (pos n) = digits n
int_text (negsuc n) = b'-' ∷ digits (suc n)

-- The number that digits spell behind `n`.
abbrev pub spelled : ℕ → Text → ℕ
spelled n [] = n
spelled n (c ∷ s) = spelled (n * 10 + (c - b'0')) s

-- A number of `limit` values on each side of 0, or failure: `failed` is what the variable then holds, in
-- which the versions of the language differ.
abbrev pub in_range : ℕ → ℤ → Bool
in_range limit (pos n) = ltb n limit
in_range limit (negsuc n) = ltb n limit

abbrev pub signed : Bool → ℕ → ℤ
signed minus zero = pos 0
signed minus (suc n) = if minus then negsuc n else pos (suc n)

abbrev pub checked : ℕ → ℤ → Bool → Text → ℤ
checked limit failed minus [] = failed
checked limit failed minus (c ∷ s) =
    let z = signed minus (spelled 0 (c ∷ s)) in if in_range limit z then z else failed

-- oss >> i on a text: a minus sign or none, and the digits up to the first other character.
unfoldable pub extract : ℕ → (Text → ℤ) → Text → ℤ
unfolding span
extract limit failed [] = failed []
extract limit failed (c ∷ s) =
    if c == b'-'
    then checked limit (failed (c ∷ s)) true (span is_digit s).0
    else checked limit (failed (c ∷ s)) false (span is_digit (c ∷ s)).0

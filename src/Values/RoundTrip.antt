-- ===== src/Values/RoundTrip.antt =====
-- FieldInt and FieldTimestamp of src/field.cc: set of a number that was written, and restore of a dump.
use topy.Prelude.{
  ℕ, zero, suc, ◌^◌, ◌<◌, ◌≡◌, refl, ap, ◌∙◌, Text, Bool, true, false, Option, none, some, [], ◌∷◌,
  ℤ, pos, negsuc, ◌==◌, arith,
}
use topy.Decimal.{is_digit, int_text, digits, spelled, signed, in_range}
use topy.Decimal.RoundTrip.{Spells, digits-Spells, span_whole, signed_pos}
use topy.Parser.{Parser, ok, waitfor}
use topy.Parser.Reading.{read_int-then}
use topy.Values.{
  is_space, scan_digits, scan_sign, scan, int_of, uint_of, to_int, to_uint, FieldInt, dump_int,
  restore_int, FieldTimestamp, dump_timestamp, restore_timestamp,
}
use topy.WordsParser.{span}

abbrev digits_of : Bool → Text → Option (Bool × ℕ)
digits_of minus [] = none
digits_of minus (c ∷ t) = some (minus, spelled 0 (c ∷ t))

scan_digits-Spells :
    (minus : Bool) (n : ℕ) (s : Text) → Spells n s → scan_digits minus s ≡ some (minus, n)
unfolding scan_digits
scan_digits-Spells minus n [] h = absurd (h.2 refl)
scan_digits-Spells minus n (c ∷ s) h =
    ap (digits_of minus) (ap (λ (r : Text × Text). r.0) (span_whole is_digit (c ∷ s) h.0))
    ∙ ap (λ (k : ℕ). some (minus, k)) h.1

span_none : (c : ℕ) (s : Text) → is_space c ≡ false → (span is_space (c ∷ s)).1 ≡ c ∷ s
unfolding span
span_none c s h = rw h refl

scan-Spells : (n : ℕ) (s : Text) → Spells n s → scan s ≡ some (false, n)
unfolding scan scan_sign
scan-Spells n [] h = absurd (h.2 refl)
scan-Spells n (c ∷ s) h =
    let plain : is_space c ≡ false = ground (arith, h.0.0) in
    let unsigned : (c == b'-') ≡ false = ground (arith, h.0.0) in
    let not_plus : (c == b'+') ≡ false = ground (arith, h.0.0) in
    ap scan_sign (span_none c s plain)
    ∙ rw (unsigned, not_plus) (scan_digits-Spells false n (c ∷ s) h)

scan_minus : (n : ℕ) (s : Text) → Spells n s → scan (b'-' ∷ s) ≡ some (true, n)
unfolding scan scan_sign
scan_minus n s h = ap scan_sign (span_none b'-' s refl) ∙ scan_digits-Spells true n s h

int_of-signed :
    (minus : Bool) (n : ℕ)
    → in_range (2 ^ 31) (signed minus n) ≡ true
    → int_of (some (minus, n)) ≡ signed minus n
unfolding int_of
int_of-signed minus n h = rw h refl

uint_of_plain : (n : ℕ) → n < 2 ^ 32 → uint_of (some (false, n)) ≡ n
unfolding uint_of
uint_of_plain zero h = refl
uint_of_plain (suc n) h = ground (arith, h)

-- to_int gives back an integer of `int` range from its text.
pub to_int-int_text : (z : ℤ) → in_range (2 ^ 31) z ≡ true → to_int (int_text z) ≡ z
unfolding to_int int_text
to_int-int_text (pos n) h =
    ap int_of (scan-Spells n (digits n) (digits-Spells n))
    ∙ int_of-signed false n (ap (in_range (2 ^ 31)) (signed_pos n) ∙ h)
    ∙ signed_pos n
to_int-int_text (negsuc n) h =
    ap int_of (scan_minus (suc n) (digits (suc n)) (digits-Spells (suc n)))
    ∙ int_of-signed true (suc n) h

pub to_uint-int_text : (n : ℕ) → n < 2 ^ 32 → to_uint (int_text (pos n)) ≡ n
unfolding to_uint int_text
to_uint-int_text n h = ap uint_of (scan-Spells n (digits n) (digits-Spells n)) ∙ uint_of_plain n h

module _ (failed : Text → ℤ) where
  pub restore_int-dump_int :
      (f g : FieldInt) (rest : Text) (p : Parser)
      → in_range (2 ^ 31) f.value ≡ true
      → restore_int failed g (record p { text = dump_int f rest })
        ≡ ok (record g { value = f.value }) (record p { text = rest })
  unfolding restore_int dump_int waitfor
  restore_int-dump_int f g rest p h = read_int-then failed _ f.value b'}' rest p h refl

  pub restore_timestamp-dump_timestamp :
      (f : FieldTimestamp) (rest : Text) (p : Parser)
      → in_range (2 ^ 31) f.value ≡ true
      → restore_timestamp failed (record p { text = dump_timestamp f rest })
        ≡ ok f (record p { text = rest })
  unfolding restore_timestamp dump_timestamp waitfor
  restore_timestamp-dump_timestamp f rest p h = read_int-then failed _ f.value b'}' rest p h refl

-- ===== src/Decimal/RoundTrip.antt =====
-- operator<< and operator>> on an integer, one after the other.
use topy.Prelude.{
  ℕ, zero, suc, ◌+◌, ◌-◌, ◌*◌, ◌/◌, ◌%◌, ◌<◌, ◌≡◌, ◌≢◌, refl, ap, ◌∙◌, inl, inr, Text, Bool, true,
  false, ◌||◌, [], ◌∷◌, ◌++◌, ℤ, pos, negsuc, ltb, ◌==◌, arith, Bool-cases, lt→ltb, ltb→lt,
}
use topy.WordsParser.{span}
use topy.Decimal.{
  is_digit, digits_loop, digits, int_text, spelled, in_range, signed, checked, extract,
}

-- Every character passes the test.
abbrev pub All : (ℕ → Bool) → Text → Type 0
All p [] = Unit {0}
All p (c ∷ s) = (p c ≡ true) × All p s

pub All-append : (p : ℕ → Bool) (s t : Text) → All p s → All p t → All p (s ++ t)
All-append p [] t a b = b
All-append p (c ∷ s) t a b = (a.0, All-append p s t a.1 b)

pub All-weaken :
    (p q : ℕ → Bool) (s : Text) → ((c : ℕ) → p c ≡ true → q c ≡ true) → All p s → All q s
All-weaken p q [] h a = tt
All-weaken p q (c ∷ s) h a = (h c a.0, All-weaken p q s h a.1)

-- span stops in front of the first character that fails.
pub span-All :
    (p : ℕ → Bool) (s : Text) (d : ℕ) (rest : Text)
    → All p s
    → p d ≡ false
    → span p (s ++ (d ∷ rest)) ≡ (s, d ∷ rest)
unfolding span
span-All p [] d rest a h = ground (arith, h)
span-All p (c ∷ s) d rest a h = ground (arith, a.0, span-All p s d rest a.1 h)

pub span_whole : (p : ℕ → Bool) (s : Text) → All p s → span p s ≡ (s, [])
unfolding span
span_whole p [] a = refl
span_whole p (c ∷ s) a = ground (arith, a.0, span_whole p s a.1)

spelled-append :
    (n : ℕ) (s : Text) (c : ℕ) → spelled n (s ++ (c ∷ [])) ≡ spelled n s * 10 + (c - b'0')
spelled-append n [] c = refl
spelled-append n (d ∷ s) c = spelled-append (n * 10 + (d - b'0')) s c

-- What the loop of digits gives: digits, at least one, that spell the number.
abbrev pub Spells : ℕ → Text → Type 0
Spells n s = All is_digit s × (spelled 0 s ≡ n) × (s ≢ [])

snoc-ne-nil : (s : Text) (c : ℕ) → s ++ (c ∷ []) ≢ []
snoc-ne-nil [] c e = cc
snoc-ne-nil (d ∷ s) c e = cc

digits_loop-Spells : (fuel n : ℕ) → n < fuel → Spells n (digits_loop fuel n)
unfolding digits_loop
digits_loop-Spells zero n h = absurd (omega arith)
digits_loop-Spells (suc fuel) n h = elim (Bool-cases (ltb n 10)) [
  | inl small ↦ rw (small, digits_loop) ((ground (arith, small), tt), omega arith, λ e. cc)
  | inr large ↦
      let before = digits_loop-Spells fuel (n / 10) (ground (arith, large)) in
      rw (large, digits_loop)
        (
          All-append is_digit (digits_loop fuel (n / 10)) _ before.0 (ground arith, tt),
          spelled-append 0 (digits_loop fuel (n / 10)) (b'0' + n % 10) ∙ omega (arith, before.1),
          snoc-ne-nil (digits_loop fuel (n / 10)) (b'0' + n % 10),
        )
]

pub digits-Spells : (n : ℕ) → Spells n (digits n)
unfolding digits
digits-Spells n = digits_loop-Spells (suc n) n (omega arith)

-- The characters that the integers of a dump are made of.
abbrev pub is_numeric : ℕ → Bool
is_numeric c = is_digit c || c == b'-'

pub int_text-numeric : (z : ℤ) → All is_numeric (int_text z)
unfolding int_text
int_text-numeric (pos n) =
    All-weaken is_digit is_numeric (digits n) (λ c h. ground (arith, h)) (digits-Spells n).0
int_text-numeric (negsuc n) = (
  refl,
  All-weaken is_digit is_numeric (digits (suc n)) (λ c h. ground (arith, h))
      (digits-Spells (suc n)).0,
)

-- The sign and the digits of a text that is not empty.
checked-Spells :
    (limit : ℕ) (failed : ℤ) (minus : Bool) (n : ℕ) (s : Text)
    → Spells n s
    → in_range limit (signed minus n) ≡ true
    → checked limit failed minus s ≡ signed minus n
checked-Spells limit failed minus n [] h r = absurd (h.2 refl)
checked-Spells limit failed minus n (c ∷ s) h r = rw (h.1, r) refl

pub signed_pos : (n : ℕ) → signed false n ≡ pos n
signed_pos zero = refl
signed_pos (suc n) = refl

extract-pos :
    (limit : ℕ) (failed : Text → ℤ) (n : ℕ) (s : Text)
    → Spells n s
    → n < limit
    → extract limit failed s ≡ pos n
unfolding extract
extract-pos limit failed n [] h r = absurd (h.2 refl)
extract-pos limit failed n (c ∷ s) h r =
    let plain : (c == b'-') ≡ false = ground (arith, h.0.0) in
    rw plain (
      ap (λ (w : Text × Text). checked limit (failed (c ∷ s)) false w.0)
        (span_whole is_digit (c ∷ s) h.0)
      ∙ checked-Spells limit (failed (c ∷ s)) false n (c ∷ s) h
          (ap (in_range limit) (signed_pos n) ∙ lt→ltb n limit r)
      ∙ signed_pos n)

extract-negsuc :
    (limit : ℕ) (failed : Text → ℤ) (n : ℕ) (s : Text)
    → Spells (suc n) s
    → n < limit
    → extract limit failed (b'-' ∷ s) ≡ negsuc n
unfolding extract
extract-negsuc limit failed n s h r =
    ap (λ (w : Text × Text). checked limit (failed (b'-' ∷ s)) true w.0) (span_whole is_digit s h.0)
    ∙ checked-Spells limit (failed (b'-' ∷ s)) true (suc n) s h (lt→ltb n limit r)

-- A number within the limits is read back.
pub extract-int_text :
    (limit : ℕ) (failed : Text → ℤ) (z : ℤ)
    → in_range limit z ≡ true
    → extract limit failed (int_text z) ≡ z
unfolding int_text
extract-int_text limit failed (pos n) h =
    extract-pos limit failed n (digits n) (digits-Spells n) (ltb→lt n limit h)
extract-int_text limit failed (negsuc n) h =
    extract-negsuc limit failed n (digits (suc n)) (digits-Spells (suc n)) (ltb→lt n limit h)

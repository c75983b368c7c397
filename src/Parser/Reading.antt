-- ===== src/Parser/Reading.antt =====
-- The readers of src/parser.cc on what the dumps write.
use topy.Prelude.{
  ℕ, ◌+◌, residue, ◌^◌, ◌<◌, ◌≡◌, refl, sym, ap, ◌∙◌, inl, inr, Text, true, false, not, ◌&&◌, [],
  ◌∷◌, ◌++◌, ℤ, pos, arith, ◌==◌, Bool-cases, ==_iff, ==_refl,
}
use topy.Decimal.{int_text, extract, in_range}
use topy.Decimal.RoundTrip.{All, span-All, int_text-numeric, extract-int_text}
use topy.Parser.{
  Parser, Parse, Parsed, ok, threw, undefined, ◌>>=◌, ◌>>◌, waitfor, put_back, numeric,
  int_or_failed, read_int, read_until, str_loop, read_str,
}
use topy.StringUtils.{addslashes}
use topy.StringUtils.Split.{Free}

abbrev hand_on : {A B : Type 0} → (A → Parse B) → Parsed A → Parsed B
hand_on f (ok a q) = f a q
hand_on f (threw q) = threw q
hand_on f undefined = undefined

-- A step that succeeds hands its value and its parser on.
pub bind_ok :
    {A B : Type 0}
    → (m : Parse A) (f : A → Parse B) (p q : Parser) (a : A) → m p ≡ ok a q
    → (m >>= f) p ≡ f a q
bind_ok m f p q a e = ap (hand_on f) e

-- The character that is waited for, on one line.
pub waitfor-cons :
    (c : ℕ) (rest : Text) (p : Parser)
    → (c == 10) ≡ false
    → waitfor c (record p { text = c ∷ rest }) ≡ ok tt (record p { text = rest })
unfolding waitfor
waitfor-cons c rest p h = rw (==_refl c, h) refl

put_back-cons :
    {A : Type 0}
    → (a : A) (c : ℕ) (rest : Text) (p : Parser)
    → put_back a (c ∷ rest) p ≡ ok a (record p { text = c ∷ rest })
unfolding put_back
put_back-cons a c rest p = refl

-- An `int`, and a character that no number has.
pub read_int-int_text :
    (failed : Text → ℤ) (z : ℤ) (d : ℕ) (rest : Text) (p : Parser)
    → in_range (2 ^ 31) z ≡ true
    → numeric d ≡ false
    → read_int failed (record p { text = int_text z ++ (d ∷ rest) })
      ≡ ok z (record p { text = d ∷ rest })
unfolding read_int
read_int-int_text failed z d rest p h n =
    ap
      (λ (r : Text × Text).
        put_back (extract (2 ^ 31) (int_or_failed failed) r.0) r.1
          (record p { text = int_text z ++ (d ∷ rest) }))
      (span-All numeric (int_text z) d rest (int_text-numeric z) n)
    ∙ put_back-cons _ d rest (record p { text = int_text z ++ (d ∷ rest) })
    ∙ ap (λ (y : ℤ). ok y (record p { text = d ∷ rest }))
        (extract-int_text (2 ^ 31) (int_or_failed failed) z h)

-- No character of the text ends it: neither the closing one nor the byte 255.
abbrev pub IsReadable : ℕ → Text → Type 0
IsReadable c s = Free c s × Free 255 s

IsReadable-All :
    (c : ℕ) (s : Text) → Free c s → Free 255 s → All (λ d. not (d == c) && not (d == 255)) s
IsReadable-All c [] f g = tt
IsReadable-All c (d ∷ s) f g = (ground (arith, f.0, g.0), IsReadable-All c s f.1 g.1)

-- A text without the closing character, and that character, which stays.
pub read_until-Free :
    (c : ℕ) (s rest : Text) (p : Parser)
    → IsReadable c s
    → read_until c (record p { text = s ++ (c ∷ rest) }) ≡ ok s (record p { text = c ∷ rest })
unfolding read_until
read_until-Free c s rest p free =
    ap (λ (r : Text × Text). put_back r.0 r.1 (record p { text = s ++ (c ∷ rest) }))
      (span-All (λ d. not (d == c) && not (d == 255)) s c rest (IsReadable-All c s free.0 free.1)
        (ground arith))
    ∙ put_back-cons s c rest (record p { text = s ++ (c ∷ rest) })

abbrev add_before : ℕ → Text × Text → Text × Text
add_before c r = (c ∷ r.0, r.1)

str_loop_plain :
    (previous c : ℕ) (t : Text)
    → (previous == 92) ≡ false
    → (c == 34) ≡ false
    → (c == 255) ≡ false
    → str_loop previous (c ∷ t) ≡ add_before previous (str_loop c t)
unfolding str_loop
str_loop_plain previous c t h k l = ground (arith, h, k, l)

str_loop_escaped :
    (previous : ℕ) (t : Text)
    → (previous == 92) ≡ false
    → str_loop previous (92 ∷ 34 ∷ t) ≡ add_before previous (str_loop 34 t)
unfolding str_loop
str_loop_escaped previous t h = ground (arith, h)

str_loop_end :
    (previous : ℕ) (t : Text)
    → (previous == 92) ≡ false
    → str_loop previous (34 ∷ t) ≡ (previous ∷ [], t)
unfolding str_loop
str_loop_end previous t h = ground (arith, h)

-- The loop of read_str behind a character that is no backslash.
str_loop-addslashes :
    (previous : ℕ) (s rest : Text)
    → (previous == 92) ≡ false
    → IsReadable 92 s
    → str_loop previous (addslashes s ++ (34 ∷ rest)) ≡ (previous ∷ s, rest)
unfolding addslashes
str_loop-addslashes previous [] rest h f = str_loop_end previous rest h
str_loop-addslashes previous (c ∷ s) rest h f = elim (Bool-cases (c == 34)) [
  | inl quote ↦
      rw (quote, addslashes)
        (str_loop_escaped previous (addslashes s ++ (34 ∷ rest)) h
          ∙ ap (add_before previous) (str_loop-addslashes 34 s rest refl (f.0.1, f.1.1))
          ∙ ap (λ (d : ℕ). (previous ∷ d ∷ s, rest)) (sym ((==_iff c 34).0 quote)))
  | inr plain ↦
      rw (plain, addslashes)
        (str_loop_plain previous c (addslashes s ++ (34 ∷ rest)) h plain f.1.0
          ∙ ap (add_before previous) (str_loop-addslashes c s rest f.0.0 (f.0.1, f.1.1)))
]

read_str_loop :
    (c : ℕ) (t : Text) (p : Parser)
    → (c == 34) ≡ false
    → read_str (record p { text = 34 ∷ c ∷ t })
      ≡ ok (str_loop c t).0 (record p { text = (str_loop c t).1 })
unfolding read_str
read_str_loop c t p h = rw h refl

read_str-loop :
    (c : ℕ) (t : Text) (p : Parser) (r : Text × Text)
    → (c == 34) ≡ false
    → str_loop c t ≡ r
    → read_str (record p { text = 34 ∷ c ∷ t }) ≡ ok r.0 (record p { text = r.1 })
read_str-loop c t p r h e =
    read_str_loop c t p h ∙ ap (λ (w : Text × Text). ok w.0 (record p { text = w.1 })) e

-- A text without a backslash, in quotes and with its own quotes escaped.
pub read_str-addslashes :
    (s rest : Text) (p : Parser)
    → IsReadable 92 s
    → read_str (record p { text = 34 ∷ (addslashes s ++ (34 ∷ rest)) })
      ≡ ok s (record p { text = rest })
unfolding read_str addslashes
read_str-addslashes [] rest p free = refl
read_str-addslashes (c ∷ s) rest p free = elim (Bool-cases (c == 34)) [
  | inl quote ↦
      rw (quote, addslashes)
        (read_str-loop 92 (34 ∷ (addslashes s ++ (34 ∷ rest))) p (34 ∷ s, rest) refl
            (first_escaped (addslashes s ++ (34 ∷ rest))
              ∙ str_loop-addslashes 34 s rest refl (free.0.1, free.1.1))
          ∙ ap (λ (d : ℕ). ok (d ∷ s) (record p { text = rest })) (sym ((==_iff c 34).0 quote)))
  | inr plain ↦
      rw (plain, addslashes)
        (read_str-loop c (addslashes s ++ (34 ∷ rest)) p (c ∷ s, rest) plain
          (str_loop-addslashes c s rest free.0.0 (free.0.1, free.1.1)))
]
  where
    first_escaped : (t : Text) → str_loop 92 (34 ∷ t) ≡ str_loop 34 t
    first_escaped t = ground arith

-- The same, for what follows a step.
pub read_int-then :
    {B : Type 0}
    → (failed : Text → ℤ) (k : ℤ → Parse B) (z : ℤ) (d : ℕ) (rest : Text) (p : Parser)
    → in_range (2 ^ 31) z ≡ true
    → numeric d ≡ false
    → (read_int failed >>= k) (record p { text = int_text z ++ (d ∷ rest) })
      ≡ k z (record p { text = d ∷ rest })
read_int-then failed k z d rest p h n =
    bind_ok (read_int failed) k _ _ z (read_int-int_text failed z d rest p h n)

pub waitfor-then :
    {B : Type 0}
    → (c : ℕ) (k : Parse B) (rest : Text) (p : Parser) → (c == 10) ≡ false
    → (waitfor c >> k) (record p { text = c ∷ rest }) ≡ k (record p { text = rest })
waitfor-then c k rest p h = bind_ok (waitfor c) (λ _. k) _ _ tt (waitfor-cons c rest p h)

pub read_until-then :
    {B : Type 0}
    → (c : ℕ) (k : Text → Parse B) (s rest : Text) (p : Parser) → IsReadable c s
    → (read_until c >>= k) (record p { text = s ++ (c ∷ rest) })
      ≡ k s (record p { text = c ∷ rest })
read_until-then c k s rest p h = bind_ok (read_until c) k _ _ s (read_until-Free c s rest p h)

-- A parser that has passed n more lines.
abbrev pub lines : ℕ → Parser → Parser
lines n p = record p { line = p.line + n }

pub fits : (n : ℕ) → n < 2 ^ 31 → in_range (2 ^ 31) (pos n) ≡ true
fits n h = ground arith

pub same : (n : ℕ) → n < 2 ^ 31 → residue (2 ^ 32) (pos n) ≡ n
same n h = omega arith

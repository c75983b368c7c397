-- ===== src/WordsParser/Reading.antt =====
-- next of src/words_parser.cc on a spaced text.
use topy.Prelude.{
  ℕ, ◌≤◌, ◌<◌, ◌≡◌, refl, ap, ◌∙◌, ◌⊎◌, inl, inr, Text, Bool, false, not, [], ◌∷◌, ◌++◌, arith,
  ◌==◌, length,
}
use topy.WordsParser.{WordsParser, span, skip_space, word_from, next_with, next}

module _ (table : ℕ → ℕ) where
  -- All characters are of one class.
  abbrev pub AllOf : ℕ → Text → Type 0
  AllOf k [] = Unit {0}
  AllOf k (c ∷ s) = (table c ≡ k) × AllOf k s

  -- A single separator, or characters of one other class.
  pub data IsWord : Text → Type 0 where
    separator : (c : ℕ) → table c ≡ 1 → IsWord (c ∷ [])
    plain :
        (c k : ℕ) (s : Text)
        → table c ≡ k
        → (k == 0) ≡ false
        → (k == 1) ≡ false
        → AllOf k s
        → IsWord (c ∷ s)

  -- Nothing, or a space and more.
  abbrev pub Break : Text → Type 0
  Break [] = Unit {0}
  Break (c ∷ s) = table c ≡ 0

  span-AllOf :
      (k : ℕ) (s rest : Text)
      → (k == 0) ≡ false
      → AllOf k s
      → Break rest
      → span (λ d. table d == k) (s ++ rest) ≡ (s, rest)
  unfolding span
  span-AllOf k [] [] h a b = refl
  span-AllOf k [] (c ∷ rest) h a b = ground arith
  span-AllOf k (c ∷ s) rest h a b = ground (arith, span-AllOf k s rest h a.1 b)

  pub word_from-IsWord :
      (w rest : Text) → IsWord w → Break rest → word_from table false (w ++ rest) ≡ (w, rest)
  unfolding word_from span
  word_from-IsWord _ rest (separator c e) b = rw (e, word_from)
  word_from-IsWord _ rest (plain c k s e h0 h1 a) b = ground (arith, span-AllOf k s rest h0 a b)

  pub skip_space-word : (w rest : Text) → IsWord w → skip_space table (w ++ rest) ≡ w ++ rest
  unfolding skip_space
  skip_space-word _ rest (separator c e) = ground arith
  skip_space-word _ rest (plain c k s e h0 h1 a) = ground arith

  pub skip_space-space :
      (c : ℕ) (s : Text) → table c ≡ 0 → skip_space table (c ∷ s) ≡ skip_space table s
  unfolding skip_space
  skip_space-space c s e = ground arith

  span-length : (q : ℕ → Bool) (s : Text) → length (span q s).1 ≤ length s
  unfolding span
  span-length q [] = omega arith
  span-length q (c ∷ s) = ground (arith, span-length q s)

  skip_space-length : (s : Text) → length (skip_space table s) ≤ length s
  unfolding skip_space
  skip_space-length [] = omega arith
  skip_space-length (c ∷ s) = ground (arith, skip_space-length s)

  word_from-length :
      (allchars : Bool) (s : Text)
      → (length (word_from table allchars s).1 ≤ length s)
        × (((word_from table allchars s).0 ≡ [])
            ⊎ (length (word_from table allchars s).1 < length s))
  unfolding word_from span
  word_from-length allchars [] = (omega arith, inl refl)
  word_from-length allchars (c ∷ s) =
      ground
        (arith, span-length (λ d. not (table d == 0)) s, span-length (λ d. table d == table c) s)

-- next on a space, a word (one separator, or characters of one other class that is not space) and
-- then the end or a space makes the word current and leaves the rest in the buffer.
pub next_word :
    (p : WordsParser) (c : ℕ) (w rest : Text)
    → p.buffer ≡ c ∷ (w ++ rest)
    → p.char_classe c ≡ 0
    → IsWord p.char_classe w
    → Break p.char_classe rest
    → next p ≡ record p { buffer = rest; current = w }
unfolding next_with
next_word p c w rest text space word break =
    ap (λ (r : Text × Text). record p { buffer = r.1; current = r.0 })
      (ap (λ (t : Text). word_from p.char_classe false (skip_space p.char_classe t)) text
        ∙ ap (word_from p.char_classe false) (skipped ∙ skip_space-word p.char_classe w rest word)
        ∙ word_from-IsWord p.char_classe w rest word break)
  where
    skipped : skip_space p.char_classe (c ∷ (w ++ rest)) ≡ skip_space p.char_classe (w ++ rest)
    skipped = skip_space-space p.char_classe c (w ++ rest) space

-- next never lengthens the buffer, and shortens it unless the word that it returns is empty.
pub next-length :
    (p : WordsParser)
    → (length (next p).buffer ≤ length p.buffer)
      × (((next p).current ≡ []) ⊎ (length (next p).buffer < length p.buffer))
unfolding next_with
next-length p =
    let skip = skip_space-length p.char_classe p.buffer in
    let word = word_from-length p.char_classe false (skip_space p.char_classe p.buffer) in
    (
      omega (arith, skip, word.0),
      elim (word.1) [
        | inl none_left ↦ inl none_left
        | inr taken ↦ inr (omega (arith, skip, taken))
      ],
    )

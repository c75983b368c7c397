-- ===== src/StringUtils/Split.antt =====
-- split of src/stringutils.cc on strings joined by the separator.
use topy.Prelude.{
  ℕ, Text, ◌≡◌, refl, sym, ap, subst, ◌∙◌, inl, inr, ==_iff, Bool-cases, false, List, [], ◌∷◌, ◌++◌,
  arith, ◌==◌, append_assoc, append-nil,
}
use topy.StringUtils.{split_loop, split}

-- A text without the separator.
abbrev pub Free : ℕ → Text → Type 0
Free separator [] = Unit {0}
Free separator (c ∷ s) = ((c == separator) ≡ false) × Free separator s

abbrev pub AllFree : ℕ → List Text → Type 0
AllFree separator [] = Unit {0}
AllFree separator (p ∷ ps) = Free separator p × AllFree separator ps

pub join : ℕ → Text → List Text → Text
join separator p [] = p
join separator p (q ∷ qs) = p ++ (separator ∷ join separator q qs)

split_loop_part :
    (separator : ℕ) (buf p rest : Text)
    → Free separator p
    → split_loop separator buf (p ++ rest) ≡ split_loop separator (buf ++ p) rest
unfolding split_loop
split_loop_part separator buf [] rest free = rw append-nil
split_loop_part separator buf (c ∷ p) rest free =
    rw (free.0, split_loop)
      (split_loop_part separator (buf ++ c ∷ []) p rest free.1
        ∙ ap (λ (b : Text). split_loop separator b rest) (append_assoc buf (c ∷ []) p))

split_loop_end : (separator : ℕ) (buf : Text) → split_loop separator buf [] ≡ buf ∷ []
unfolding split_loop
split_loop_end separator buf = refl

split_loop_next :
    (separator : ℕ) (buf rest : Text)
    → split_loop separator buf (separator ∷ rest) ≡ buf ∷ split_loop separator [] rest
unfolding split_loop
split_loop_next separator buf rest = ground arith

-- Splitting parts joined by the separator gives the parts back, if none contains the separator.
pub split-join :
    (separator : ℕ) (p : Text) (ps : List Text)
    → Free separator p
    → AllFree separator ps
    → split (join separator p ps) separator ≡ p ∷ ps
unfolding split join
split-join separator p [] free all =
    subst (λ (t : Text). split_loop separator [] t ≡ p ∷ []) (append-nil p)
      (split_loop_part separator [] p [] free ∙ split_loop_end separator p)
split-join separator p (q ∷ qs) free all =
    split_loop_part separator [] p (separator ∷ join separator q qs) free
    ∙ split_loop_next separator p (join separator q qs)
    ∙ ap (λ (l : List Text). p ∷ l) (split-join separator q qs all.0 all.1)

split_loop_cons :
    (separator : ℕ) (buf s : Text)
    → (q : Text) × (qs : List Text) × (split_loop separator buf s ≡ q ∷ qs)
unfolding split_loop
split_loop_cons separator buf [] = (buf, [], refl)
split_loop_cons separator buf (c ∷ s) = elim (Bool-cases (c == separator)) [
  | inl here ↦ (buf, split_loop separator [] s, rw (here, split_loop))
  | inr other ↦
      let (q, qs, e) = split_loop_cons separator (buf ++ c ∷ []) s in
      (q, qs, rw (other, split_loop) e)
]

pub join_parts : ℕ → List Text → Text
join_parts separator [] = []
join_parts separator (p ∷ ps) = join separator p ps

join-cons :
    (separator : ℕ) (p q : Text) (l qs : List Text)
    → l ≡ q ∷ qs
    → join separator p l ≡ p ++ (separator ∷ join_parts separator l)
unfolding join join_parts
join-cons separator p q l qs e = rw e

join-split_loop :
    (separator : ℕ) (buf s : Text) → join_parts separator (split_loop separator buf s) ≡ buf ++ s
unfolding split_loop join_parts join
join-split_loop separator buf [] = sym (append-nil buf)
join-split_loop separator buf (c ∷ s) = elim (Bool-cases (c == separator)) [
  | inl here ↦
      let (q, qs, e) = split_loop_cons separator [] s in
      let same : c ≡ separator = (==_iff c separator).0 here in
      rw (here, split_loop)
        (join-cons separator buf q (split_loop separator [] s) qs e
          ∙ ap (λ (t : Text). buf ++ (separator ∷ t)) (join-split_loop separator [] s)
          ∙ ap (λ (a : ℕ). buf ++ (a ∷ s)) (sym same))
  | inr other ↦
      rw (other, split_loop)
        (join-split_loop separator (buf ++ c ∷ []) s ∙ append_assoc buf (c ∷ []) s)
]

-- Joining the parts of a split text by the separator gives the text back, for every text.
pub join-split : (separator : ℕ) (str : Text) → join_parts separator (split str separator) ≡ str
unfolding split
join-split separator str = join-split_loop separator [] str

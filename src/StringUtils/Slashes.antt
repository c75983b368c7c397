-- ===== src/StringUtils/Slashes.antt =====
-- addslashes and stripslashes of src/stringutils.cc, one after the other.
use topy.Prelude.{
  ℕ, Text, ◌≡◌, refl, sym, ap, ◌∙◌, inl, inr, false, [], ◌∷◌, arith, ◌==◌, some, Bool-cases, ==_iff,
}
use topy.StringUtils.{addslashes, strip_loop, stripslashes}

-- A text does not begin with a quote.
abbrev Unquoted : Text → Type 0
Unquoted [] = Unit {0}
Unquoted (c ∷ s) = (c == 34) ≡ false

addslashes-Unquoted : (s : Text) → Unquoted (addslashes s)
unfolding addslashes
addslashes-Unquoted [] = tt
addslashes-Unquoted (c ∷ s) = ground arith

strip_loop-cons : (c : ℕ) (s : Text) → Unquoted s → strip_loop (c ∷ s) ≡ c ∷ strip_loop s
unfolding strip_loop
strip_loop-cons c [] h = refl
strip_loop-cons c (d ∷ s) h = ground arith

strip_loop_quote : (s : Text) → strip_loop (92 ∷ 34 ∷ s) ≡ 34 ∷ strip_loop s
unfolding strip_loop
strip_loop_quote s = refl

strip_loop_nil : strip_loop [] ≡ []
unfolding strip_loop
strip_loop_nil = refl

strip_loop-addslashes : (s : Text) → strip_loop (addslashes s) ≡ s
unfolding addslashes
strip_loop-addslashes [] = strip_loop_nil
strip_loop-addslashes (c ∷ s) = elim (Bool-cases (c == 34)) [
  | inl quote ↦
      rw (quote, addslashes)
        (strip_loop_quote (addslashes s)
          ∙ ap (λ (t : Text). 34 ∷ t) (strip_loop-addslashes s)
          ∙ ap (λ (a : ℕ). a ∷ s) (sym ((==_iff c 34).0 quote)))
  | inr plain ↦
      rw (plain, addslashes)
        (strip_loop-cons c (addslashes s) (addslashes-Unquoted s)
          ∙ ap (λ (t : Text). c ∷ t) (strip_loop-addslashes s))
]

addslashes-cons : (c : ℕ) (s : Text) → (d : ℕ) × (r : Text) × (addslashes (c ∷ s) ≡ d ∷ r)
unfolding addslashes
addslashes-cons c s = elim (Bool-cases (c == 34)) [
  | inl quote ↦ (92, 34 ∷ addslashes s, rw (quote, addslashes))
  | inr plain ↦ (c, addslashes s, rw (plain, addslashes))
]

-- stripslashes gives back every text but the empty one from what addslashes makes of it.
pub stripslashes-addslashes : (c : ℕ) (s : Text) → stripslashes (addslashes (c ∷ s)) ≡ some (c ∷ s)
unfolding stripslashes
stripslashes-addslashes c s =
    let (d, r, e) = addslashes-cons c s in
    rw (e, stripslashes) (ap some (sym (ap strip_loop e) ∙ strip_loop-addslashes (c ∷ s)))

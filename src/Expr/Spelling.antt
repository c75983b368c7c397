-- ===== src/Expr/Spelling.antt =====
-- Which formulas can be spelled so that the words parser reads each word whole, and how they are spelled.
use topy.Prelude.{
  ℕ, Text, codes, text_eq, ◌≡◌, refl, ap, ◌∙◌, true, false, List, [], ◌∷◌, ◌++◌, append_assoc, ◌==◌,
}
use topy.Groups.{Group, Groups}
use topy.Groups
use topy.Expr.Formula.{
  Formula, constant, in_groups, id_begins, id_ends, negation, both, either, spell, spell-append,
}
use topy.Expr.Parser.{is_unknown}
use topy.WordsParser.Reading.{IsWord, separator, plain, Break}

-- The words of the language are words for the table.
pub record Reads (table : ℕ → ℕ) : Type 0 where
  pub space : table 32 ≡ 0
  pub parentheses : IsWord table (codes "(") × IsWord table (codes ")")
  pub brackets : IsWord table (codes "[") × IsWord table (codes "]")
  pub constants : IsWord table (codes "true") × IsWord table (codes "false")
  pub operators : IsWord table (codes "!") × IsWord table (codes "and") × IsWord table (codes "or")

module _ (table : ℕ → ℕ) (gs : Groups) where
  -- Names that stand in brackets: words, and groups that are known.
  abbrev pub AllKnown : List Text → Type 0
  AllKnown [] = Unit {0}
  AllKnown (name ∷ names) =
      (IsWord table name
        × (text_eq name (codes "]") ≡ false)
        × (is_unknown (Groups.get name gs) ≡ false))
      × AllKnown names

  -- Formulas whose words the table reads whole.
  abbrev pub Printable : Formula → Type 0
  Printable (constant b) = Unit {0}
  Printable (in_groups names) = AllKnown names
  Printable (id_begins c s) = IsWord table (94 ∷ c ∷ s)
  Printable (id_ends c s) = IsWord table (c ∷ (s ++ (36 ∷ []))) × ((c == 94) ≡ false)
  Printable (negation f) = Printable f
  Printable (both f g) = Printable f × Printable g
  Printable (either f g) = Printable f × Printable g

abbrev pub last_word : Formula → Text
last_word (constant true) = codes "true"
last_word (constant false) = codes "false"
last_word (in_groups names) = codes "]"
last_word (id_begins c s) = 94 ∷ c ∷ s
last_word (id_ends c s) = c ∷ (s ++ (36 ∷ []))
last_word (negation f) = last_word f
last_word (both f g) = codes ")"
last_word (either f g) = codes ")"

-- A spelled text can follow a word.
pub Break-spell :
    (table : ℕ → ℕ) (ws : List Text) (rest : Text)
    → table 32 ≡ 0
    → Break table rest
    → Break table (spell ws ++ rest)
Break-spell table [] rest space b = b
Break-spell table (w ∷ ws) rest space b = space

pub word_some : (table : ℕ → ℕ) (w : Text) → IsWord table w → text_eq w [] ≡ false
word_some table _ (separator c e) = refl
word_some table _ (plain c k s e h0 h1 a) = refl

-- The words of an operator between two formulas.
abbrev pub infix_words : Text → List Text → List Text → List Text
infix_words op vs ws = codes "(" ∷ (vs ++ (op ∷ (ws ++ (codes ")" ∷ []))))

pub spell_infix :
    (op : Text) (vs ws : List Text) (rest : Text)
    → spell (infix_words op vs ws) ++ rest
      ≡ 32 ∷ 40 ∷ (spell vs ++ (32 ∷ (op ++ (spell ws ++ (32 ∷ 41 ∷ rest)))))
spell_infix op vs ws rest =
    ap (λ (t : Text). 32 ∷ 40 ∷ t)
      (ap (λ (t : Text). t ++ rest) (spell-append vs (op ∷ (ws ++ (codes ")" ∷ []))))
        ∙ append_assoc (spell vs) (32 ∷ (op ++ spell (ws ++ (codes ")" ∷ [])))) rest
        ∙ ap (λ (t : Text). spell vs ++ (32 ∷ t))
            (append_assoc op (spell (ws ++ (codes ")" ∷ []))) rest
              ∙ ap (λ (t : Text). op ++ t)
                  (ap (λ (t : Text). t ++ rest) (spell-append ws (codes ")" ∷ []))
                    ∙ append_assoc (spell ws) (32 ∷ 41 ∷ []) rest)))

pub spell_bracket :
    (names : List Text) (rest : Text)
    → spell (codes "[" ∷ (names ++ (codes "]" ∷ []))) ++ rest
      ≡ 32 ∷ 91 ∷ (spell names ++ (32 ∷ 93 ∷ rest))
spell_bracket names rest =
    ap (λ (t : Text). 32 ∷ 91 ∷ t)
      (ap (λ (t : Text). t ++ rest) (spell-append names (codes "]" ∷ []))
        ∙ append_assoc (spell names) (32 ∷ 93 ∷ []) rest)

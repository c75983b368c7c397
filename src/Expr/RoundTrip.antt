-- ===== src/Expr/RoundTrip.antt =====
-- ExprParser and ExprBool::get of src/expr_bool.cc on the words of a formula.
use topy.Prelude.{
  ℕ, zero, suc, ◌+◌, ◌-◌, ◌*◌, ◌<◌, Text, codes, ◌≡◌, refl, sym, ap, subst, ◌∙◌, Bool, true, false,
  some, List, [], ◌∷◌, ◌++◌, if◌then◌else◌, arith, length, length-append, append_assoc, append-nil,
}
use topy.Groups.{Group, Groups}
use topy.Groups.Filters.{unite, no_filter}
use topy.Expr.{ExprContext, ExprBool, const, and, or, filter, prefix, suffix, get}
use topy.Expr.Formula.{
  Formula, constant, in_groups, id_begins, id_ends, negation, both, either, words_of, spell,
  expr_of, holds, get-expr_of,
}
use topy.Expr.Parser.{
  ExprParser, Outcome, done, token_of, parse_element, parse_filter, parse_bracket, push, parse,
  parsed, ◌>>=◌,
}
use topy.Expr.Steps.{
  at, element_true, element_false, element_prefix, element_suffix, element_close, element_bracket,
  element_open, element_not, element_and, element_or, expr_goes_on, expr_stops, filter_step,
  filter_end,
}
use topy.Expr.Parser.Tokens.{token_prefix, token_suffix}
use topy.WordsParser.Reading.{Break}
use topy.Expr.Spelling.{
  Reads, AllKnown, Printable, last_word, Break-spell, word_some, infix_words, spell_infix,
  spell_bracket,
}

module _ (context : ExprContext) (right_first : Bool) (table : ℕ → ℕ) (err : Text) (gs : Groups)
    (reads : Reads table) (here : context.groups ≡ some gs) where
  abbrev state : Text → Text → List ExprBool → ExprParser
  state cur buf st = at context right_first table err reads.space cur buf st

  -- The names of a filter are united.
  filter_reads :
      (names : List Text) (f : Group) (fuel : ℕ) (cur rest : Text) (st : List ExprBool)
      → AllKnown table gs names
      → Break table rest
      → length (spell names ++ (32 ∷ 93 ∷ rest)) < fuel
      → parse_filter context right_first fuel gs f (state cur (spell names ++ (32 ∷ 93 ∷ rest)) st)
        ≡ done (true, unite gs f names, state (codes "]") rest st)
  unfolding unite
  filter_reads names f zero cur rest st known b h = absurd (omega arith)
  filter_reads [] f (suc fuel) cur rest st known b h =
      filter_end context right_first table err reads.space gs f cur rest st fuel reads.brackets.1 b
  filter_reads (name ∷ names) f (suc fuel) cur rest st known b h =
      subst
        (λ (t : Text).
          parse_filter context right_first (suc fuel) gs f (state cur (32 ∷ t) st)
          ≡ done (true, unite gs f (name ∷ names), state (codes "]") rest st))
        (sym split_name)
        (filter_step context right_first table err reads.space gs f cur name tail st fuel known.0.0
            (Break-spell table names _ reads.space reads.space) known.0.1
            (word_some table name known.0.0) known.0.2
          ∙ filter_reads names _ fuel name rest st known.1 b
              (omega (arith, ap (λ (t : Text). length t) split_name, length-append name tail)))
    where
      tail : Text
      tail = spell names ++ (32 ∷ 93 ∷ rest)

      split_name : (name ++ spell names) ++ (32 ∷ 93 ∷ rest) ≡ name ++ tail
      split_name = append_assoc name (spell names) (32 ∷ 93 ∷ rest)

  -- A filter in its brackets.
  bracket_reads :
      (names : List Text) (fuel : ℕ) (cur rest : Text) (st : List ExprBool)
      → AllKnown table gs names
      → Break table rest
      → length (spell names ++ (32 ∷ 93 ∷ rest)) < fuel
      → parse_element context right_first
          (suc fuel)
          (state cur (32 ∷ 91 ∷ (spell names ++ (32 ∷ 93 ∷ rest))) st)
        ≡ done (true, state (codes "]") rest (filter (unite gs no_filter names) ∷ st))
  unfolding parse_bracket push token_of
  bracket_reads names fuel cur rest st known b h =
      element_bracket context right_first table err reads.space cur (codes "[") _ st fuel
        reads.brackets.0 (Break-spell table names _ reads.space reads.space) refl
      ∙ rw (here, parse_bracket, filter_reads names no_filter fuel (codes "[") rest st known b h)
          refl

  -- Two operands, an operator between them, and the parentheses; each is read with the fuel that is left.
  infix_reads :
      (op cur rest last last' left right : Text) (k : ℕ) (x z : ExprBool) (st : List ExprBool)
      → Break table (left ++ (32 ∷ (op ++ right)))
      → Break table rest
      → parse_element context right_first
          (suc (suc (suc k)))
          (state (codes "(") (left ++ (32 ∷ (op ++ right))) st)
        ≡ done (true, state last (32 ∷ (op ++ right)) (x ∷ st))
      → parse_element context right_first (suc (suc k)) (state last (32 ∷ (op ++ right)) (x ∷ st))
        ≡ done (true, state last' (32 ∷ 41 ∷ rest) (z ∷ st))
      → parse_element context right_first
          (suc (suc (suc (suc (suc k)))))
          (state cur (32 ∷ 40 ∷ (left ++ (32 ∷ (op ++ right)))) st)
        ≡ done (true, state (codes ")") rest (z ∷ st))
  unfolding token_of
  infix_reads op cur rest last last' left right k x z st b b' first second =
      element_open context right_first table err reads.space cur (codes "(") _ st _
        reads.parentheses.0 b (state (codes ")") rest (z ∷ st)) true refl
        (expr_goes_on context right_first table err reads.space _ _ _ first
          ∙ expr_goes_on context right_first table err reads.space _ _ _ second
          ∙ expr_stops context right_first table err reads.space _ _ _ (
              element_close context right_first table err reads.space last' (codes ")") rest
                (z ∷ st) k reads.parentheses.1 b' refl))

  abbrev Reading : Formula → ℕ → Text → Text → List ExprBool → Type 0
  Reading f fuel cur rest st =
      parse_element context right_first fuel (state cur (spell (words_of f) ++ rest) st)
      ≡ done (true, state (last_word f) rest (expr_of right_first gs f ∷ st))

  -- What reading a formula needs: fuel above twice the characters that are left.
  abbrev ReadsAt : Formula → Type 0
  ReadsAt f =
      (fuel : ℕ) (cur rest : Text) (st : List ExprBool)
      → Break table rest
      → 2 * length (spell (words_of f) ++ rest) < fuel
      → Reading f fuel cur rest st

  abbrev operator_of : (ExprBool → ExprBool → ExprBool) → ExprBool → ExprBool → ExprBool
  operator_of op x y = if right_first then op y x else op x y

  -- An operator reads its second operand.
  abbrev Operates : Text → (ExprBool → ExprBool → ExprBool) → Type 0
  Operates op g =
      (cur rest cur' buf : Text) (x y : ExprBool) (st : List ExprBool) (fuel : ℕ)
      → Break table rest
      → parse_element context right_first fuel (state op rest (x ∷ st))
        ≡ done (true, state cur' buf (y ∷ x ∷ st))
      → parse_element context right_first (suc fuel) (state cur (32 ∷ (op ++ rest)) (x ∷ st))
        ≡ done (true, state cur' buf (operator_of g x y ∷ st))

  and-Operates : Operates (codes "and") and
  unfolding token_of
  and-Operates cur rest cur' buf x y st fuel b operand =
      element_and context right_first table err reads.space cur (codes "and") rest x st fuel
        reads.operators.1 b cur' buf y operand refl

  or-Operates : Operates (codes "or") or
  unfolding token_of
  or-Operates cur rest cur' buf x y st fuel b operand =
      element_or context right_first table err reads.space cur (codes "or") rest x st fuel
        reads.operators.2 b cur' buf y operand refl

  binary_reads :
      (op : Text) (g : ExprBool → ExprBool → ExprBool) (f f' : Formula) (fuel : ℕ) (cur rest : Text)
      (st : List ExprBool)
      → Operates op g
      → ReadsAt f
      → ReadsAt f'
      → Break table rest
      → 2 * length (spell (infix_words op (words_of f) (words_of f')) ++ rest) < fuel
      → parse_element context right_first fuel
          (state cur (spell (infix_words op (words_of f) (words_of f')) ++ rest) st)
        ≡ done (
          true,
          state
              (codes ")")
              rest
              (operator_of g (expr_of right_first gs f) (expr_of right_first gs f') ∷ st),
        )
  binary_reads op g f f' fuel cur rest st operates first second b h = subst Goal (sym five) (
      subst (λ (t : Text). Read (suc (suc (suc (suc (suc k))))) t) (sym spelled)
        (infix_reads op cur rest (last_word f) (last_word f') (spell (words_of f)) right k
          (expr_of right_first gs f) _ st (Break-spell table (words_of f) _ reads.space reads.space)
          b
          (first (suc (suc (suc k))) (codes "(") (32 ∷ (op ++ right)) st reads.space
            (omega (arith, size)))
          (operates (last_word f) right (last_word f') (32 ∷ 41 ∷ rest) _ _ st (suc k)
            (Break-spell table (words_of f') _ reads.space reads.space)
            (second (suc k) op (32 ∷ 41 ∷ rest) (expr_of right_first gs f ∷ st) reads.space (
              omega (
                arith,
                size,
                length-append (spell (words_of f)) (32 ∷ (op ++ right)),
                length-append op right,
              ))))))
    where
      right : Text
      right = spell (words_of f') ++ (32 ∷ 41 ∷ rest)

      spelled :
          spell (infix_words op (words_of f) (words_of f')) ++ rest
          ≡ 32 ∷ 40 ∷ (spell (words_of f) ++ (32 ∷ (op ++ right)))
      spelled = spell_infix op (words_of f) (words_of f') rest

      k : ℕ
      k = fuel - 5

      Read : ℕ → Text → Type 0
      Read n t =
          parse_element context right_first n (state cur t st)
          ≡ done (
            true,
            state (codes ")") rest
                (operator_of g (expr_of right_first gs f) (expr_of right_first gs f') ∷ st),
          )

      Goal : ℕ → Type 0
      Goal n = Read n (spell (infix_words op (words_of f) (words_of f')) ++ rest)

      size : 2 * (2 + length (spell (words_of f) ++ (32 ∷ (op ++ right)))) < fuel
      size = omega (arith, ap (λ (t : Text). length t) spelled)

      five : fuel ≡ suc (suc (suc (suc (suc k))))
      five = omega (
        arith,
        size,
        length-append (spell (words_of f)) (32 ∷ (op ++ right)),
        length-append op right,
        length-append (spell (words_of f')) (32 ∷ 41 ∷ rest),
      )

  -- A formula of one word.
  word_reads :
      (w : Text) (e : ExprBool) (fuel : ℕ) (cur rest : Text) (st : List ExprBool)
      → ((n : ℕ)
          → parse_element context right_first (suc n) (state cur (32 ∷ (w ++ rest)) st)
            ≡ done (true, state w rest (e ∷ st)))
      → 0 < fuel
      → parse_element context right_first fuel (state cur (spell (w ∷ []) ++ rest) st)
        ≡ done (true, state w rest (e ∷ st))
  word_reads w e zero cur rest st read h = absurd (omega arith)
  word_reads w e (suc fuel) cur rest st read h =
      subst
        (λ (t : Text).
          parse_element context right_first (suc fuel) (state cur (32 ∷ (t ++ rest)) st)
          ≡ done (true, state w rest (e ∷ st)))
        (sym (append-nil w)) (read fuel)

  -- Every printable formula is read whole.
  formula_reads : (f : Formula) → Printable table gs f → ReadsAt f
  unfolding token_of
  formula_reads (constant true) p fuel cur rest st b h =
      word_reads (codes "true") (const true) fuel cur rest st
        (λ n.
          element_true context right_first table err reads.space cur (codes "true") rest st n
            reads.constants.0 b refl)
        (omega arith)
  formula_reads (constant false) p fuel cur rest st b h =
      word_reads (codes "false") (const false) fuel cur rest st
        (λ n.
          element_false context right_first table err reads.space cur (codes "false") rest st n
            reads.constants.1 b refl)
        (omega arith)
  formula_reads (in_groups names) p zero cur rest st b h = absurd (omega arith)
  formula_reads (in_groups names) p (suc fuel) cur rest st b h =
      let spelled = spell_bracket names rest in
      subst
        (λ (t : Text).
          parse_element context right_first (suc fuel) (state cur t st)
          ≡ done (true, state (codes "]") rest (filter (unite gs no_filter names) ∷ st)))
        (sym spelled)
        (bracket_reads names fuel cur rest st p b
          (omega (arith, ap (λ (t : Text). length t) spelled)))
  formula_reads (id_begins c s) p fuel cur rest st b h =
      word_reads (94 ∷ c ∷ s) (prefix (c ∷ s)) fuel cur rest st
        (λ n.
          element_prefix context right_first table err reads.space cur (94 ∷ c ∷ s) rest st n p b
            (c ∷ s) (token_prefix c s))
        (omega arith)
  formula_reads (id_ends c s) p fuel cur rest st b h =
      word_reads (c ∷ (s ++ (36 ∷ []))) (suffix (c ∷ s)) fuel cur rest st
        (λ n.
          element_suffix context right_first table err reads.space cur _ rest st n p.0 b (c ∷ s)
            (token_suffix c s p.1))
        (omega arith)
  formula_reads (negation f) p zero cur rest st b h = absurd (omega arith)
  formula_reads (negation f) p (suc fuel) cur rest st b h =
      element_not context right_first table err reads.space cur (codes "!") _ st fuel
        reads.operators.0 (Break-spell table (words_of f) rest reads.space b) (last_word f) rest _
        refl (formula_reads f p fuel (codes "!") rest st b (omega arith))
  formula_reads (both f g) p fuel cur rest st b h =
      binary_reads (codes "and") and f g fuel cur rest st and-Operates (formula_reads f p.0)
        (formula_reads g p.1) b h
  formula_reads (either f g) p fuel cur rest st b h =
      binary_reads (codes "or") or f g fuel cur rest st or-Operates (formula_reads f p.0)
        (formula_reads g p.1) b h

  -- Parsing the words of a formula, each behind a space, from an empty stack gives an expression
  -- whose get is, for every user, what the formula says of the user, for either order of the two
  -- pops, and stops right behind the formula; the table must read the words of the language and of
  -- the formula whole, the names in brackets must be known groups of the registry, what follows
  -- must be nothing or a space, and the fuel must be above twice the number of characters.
  pub get-parse :
      (f : Formula) (fuel : ℕ) (cur rest : Text)
      → Printable table gs f
      → Break table rest
      → 2 * length (spell (words_of f) ++ rest) < fuel
      → (e : ExprBool) × (parse context right_first fuel
            (state cur (spell (words_of f) ++ rest) []).words
            (state cur [] [])
          ≡ done (some e, state (last_word f) rest []))
        × ((c : ExprContext) → get c e ≡ holds gs c f)
  unfolding parse
  get-parse f fuel cur rest p b h = (
    expr_of right_first gs f,
    ap (λ (o : Outcome (Bool × ExprParser)). o >>= λ r. done (parsed context right_first r))
        (formula_reads f p fuel cur rest [] b h),
    λ c. get-expr_of right_first gs c f,
  )

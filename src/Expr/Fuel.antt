-- ===== src/Expr/Fuel.antt =====
-- The fuel of the loops of ExprParser of src/expr_bool.cc.
use topy.Prelude.{
  ℕ, zero, suc, ◌+◌, ◌*◌, ◌≤◌, ◌<◌, ◌≡◌, ◌≢◌, refl, inl, inr, codes, text_eq, Bool, true, false,
  ◌||◌, Option, none, some, [], arith, if◌then◌else◌, length, Bool-cases,
}
use topy.Groups
use topy.Groups.{Group, Groups}
use topy.Expr.{ExprContext, and, or, neg, filter}
use topy.Expr.Parser.{
  ExprParser, Outcome, done, fault, out_of_fuel, ◌>>=◌, parse_filter, parse_bracket, parse_element,
  parse_expr, parse, parsed, is_unknown, token_of, Token, end, close, open_, bracket, true_word,
  false_word, not_word, and_word, or_word, other, prefix_word, suffix_word, push, replace, pop_one,
  pop_two,
}
use topy.WordsParser.{WordsParser}
use topy.Expr.Ends.{
  Ends, Ends-Within, EndsFilter, Within, Within-mono, advance, group-Ends, left, next-left,
  operand-Ends, operator-Ends, pop_one-Settles, pop_two-Settles, united, word_read,
}

module _ (context : ExprContext) (right_first : Bool) where
  EndsFilter-mono :
      (m n : ℕ) (r : Outcome (Bool × Group × ExprParser)) → m ≤ n → EndsFilter m r → EndsFilter n r
  EndsFilter-mono m n (done (b, f, q)) h e = omega arith
  EndsFilter-mono m n fault h e = tt
  EndsFilter-mono m n out_of_fuel h e = e

  parse_filter-ends :
      (fuel : ℕ) (gs : Groups) (f : Group) (p : ExprParser)
      → left p < fuel
      → EndsFilter (left p) (parse_filter context right_first fuel gs f p)
  unfolding parse_filter
  parse_filter-ends zero gs f p h = absurd (omega arith)
  parse_filter-ends (suc fuel) gs f p h =
      elim (Bool-cases (text_eq (advance p).words.current (codes "]"))) [
        | inl closing ↦ rw (closing, parse_filter) ((next-left p).0)
        | inr word ↦ elim (Bool-cases (text_eq (advance p).words.current [])) [
          | inl none_left ↦ rw (word, parse_filter, none_left) ((next-left p).0)
          | inr more ↦ elim (Bool-cases (is_unknown (Groups.get (advance p).words.current gs))) [
            | inl unknown ↦ rw (word, parse_filter, more, unknown) ((next-left p).0)
            | inr known ↦
                rw (word, parse_filter, more, known)
                  (EndsFilter-mono (left (advance p)) (left p)
                    (parse_filter context right_first fuel gs (united gs f p) (advance p))
                    (next-left p).0
                    (parse_filter-ends fuel gs (united gs f p) (advance p)
                      (omega (arith, (next-left p).1 more))))
          ]
        ]
      ]

  bracket_found-Within :
      (n : ℕ) (r : Outcome (Bool × Group × ExprParser))
      → EndsFilter n r
      → Within n (r >>= λ t. if t.0 then done (true, push (filter t.1) t.2) else done (false, t.2))
  unfolding push
  bracket_found-Within n (done (true, f, q)) e = e
  bracket_found-Within n (done (false, f, q)) e = e
  bracket_found-Within n fault e = tt
  bracket_found-Within n out_of_fuel e = e

  parse_bracket-Within :
      (fuel : ℕ) (gs : Option Groups) (p : ExprParser)
      → left p < fuel
      → Within (left p) (parse_bracket context right_first fuel gs p)
  unfolding parse_bracket
  parse_bracket-Within fuel none p h = omega arith
  parse_bracket-Within fuel (some gs) p h =
      bracket_found-Within (left p)
        (parse_filter context right_first fuel gs (record { id = 0; mask = 0 }) p)
        (parse_filter-ends fuel gs (record { id = 0; mask = 0 }) p h)

  -- One element by its token, when what it reads after the word ends.
  module _ (fuel : ℕ) (p : ExprParser) (enough : 2 * left p < suc fuel)
      (element : left (advance p) < left p
        → Ends (left (advance p)) (parse_element context right_first fuel (advance p)))
      (expr : left (advance p) < left p
        → Within (left (advance p)) (parse_expr context right_first fuel (advance p))) where
    shorter :
        (k : Token) → token_of (advance p).words.current ≡ k → k ≢ end → left (advance p) < left p
    shorter k e more = (next-left p).1 (word_read (advance p).words.current k e more)

    token-Ends :
        (k : Token)
        → token_of (advance p).words.current ≡ k
        → Ends (left p) (parse_element context right_first (suc fuel) p)
    unfolding parse_element push
    token-Ends end e = rw (e, parse_element) ((next-left p).0, λ t. cc)
    token-Ends close e = rw (e, parse_element) ((next-left p).0, λ t. cc)
    token-Ends open_ e =
        let less = shorter open_ e (λ t. cc) in
        rw (e, parse_element)
          (group-Ends (left (advance p)) (left p) (parse_expr context right_first fuel (advance p))
            less (expr less))
    token-Ends bracket e =
        let less = shorter bracket e (λ t. cc) in
        rw (e, parse_element)
          (Ends-Within (left (advance p)) (left p)
            (parse_bracket context right_first fuel context.groups (advance p)) less
            (parse_bracket-Within fuel context.groups (advance p) (omega arith)))
    token-Ends not_word e =
        let less = shorter not_word e (λ t. cc) in
        rw (e, parse_element)
          (operand-Ends (left (advance p)) (left p) (pop_one neg)
            (parse_element context right_first fuel (advance p)) (pop_one-Settles neg) less
            (element less))
    token-Ends and_word e =
        let less = shorter and_word e (λ t. cc) in
        rw (e, parse_element)
          (operator-Ends (left p) p.stack (done (false, advance p))
            (parse_element context right_first fuel (advance p) >>= λ t.
              if t.0 then replace t.1 (pop_two right_first and t.1.stack) else done t)
            ((next-left p).0, λ t. cc)
            (operand-Ends (left (advance p)) (left p) (pop_two right_first and)
              (parse_element context right_first fuel (advance p)) (pop_two-Settles right_first and)
              less (element less)))
    token-Ends or_word e =
        let less = shorter or_word e (λ t. cc) in
        rw (e, parse_element)
          (operator-Ends (left p) p.stack (done (false, advance p))
            (parse_element context right_first fuel (advance p) >>= λ t.
              if t.0 then replace t.1 (pop_two right_first or t.1.stack) else done t)
            ((next-left p).0, λ t. cc)
            (operand-Ends (left (advance p)) (left p) (pop_two right_first or)
              (parse_element context right_first fuel (advance p)) (pop_two-Settles right_first or)
              less (element less)))
    token-Ends true_word e =
        let less = shorter true_word e (λ t. cc) in
        rw (e, parse_element) ((next-left p).0, λ t. less)
    token-Ends false_word e =
        let less = shorter false_word e (λ t. cc) in
        rw (e, parse_element) ((next-left p).0, λ t. less)
    token-Ends (prefix_word str) e =
        let less = shorter (prefix_word str) e (λ t. cc) in
        rw (e, parse_element) ((next-left p).0, λ t. less)
    token-Ends (suffix_word str) e =
        let less = shorter (suffix_word str) e (λ t. cc) in
        rw (e, parse_element) ((next-left p).0, λ t. less)
    token-Ends other e = rw (e, parse_element) ((next-left p).0, λ t. cc)

  expr_step-Within :
      (n fuel : ℕ) (r : Outcome (Bool × ExprParser))
      → Ends n r
      → ((q : ExprParser) → left q < n → Within (left q) (parse_expr context right_first fuel q))
      → Within n (
          r >>= λ t. elim (t.0) [
            | true ↦ parse_expr context right_first fuel t.1
            | false ↦
                done (text_eq t.1.words.current (codes ")") || text_eq t.1.words.current [], t.1)
          ])
  expr_step-Within n fuel (done (true, q)) e go =
      Within-mono (left q) n (parse_expr context right_first fuel q) e.0 (go q (e.1 refl))
  expr_step-Within n fuel (done (false, q)) e go = e.0
  expr_step-Within n fuel fault e go = tt
  expr_step-Within n fuel out_of_fuel e go = e

  mutual
    unfolding parse_element

    -- parse_element ends whatever it reads, with fuel above twice the characters that are left, and
    -- it has read some if it succeeds.
    pub element-Ends :
        (fuel : ℕ) (p : ExprParser)
        → 2 * left p < fuel
        → Ends (left p) (parse_element context right_first fuel p)
    element-Ends zero p h = absurd (omega arith)
    element-Ends (suc fuel) p h =
        token-Ends fuel p h (λ less. element-Ends fuel (advance p) (omega arith))
          (λ less. expr-Ends fuel (advance p) (omega arith)) (token_of (advance p).words.current)
          refl

    pub expr-Ends :
        (fuel : ℕ) (p : ExprParser)
        → 2 * left p + 1 < fuel
        → Within (left p) (parse_expr context right_first fuel p)
    expr-Ends zero p h = absurd (omega arith)
    expr-Ends (suc fuel) p h =
        expr_step-Within (left p) fuel (parse_element context right_first fuel p)
          (element-Ends fuel p (omega arith)) (λ q less. expr-Ends fuel q (omega arith))

-- The parser of where clauses ends on every text, in every state and for either order of the two
-- pops: with fuel above twice the characters that are left it never runs out.
pub parse_total :
    (context : ExprContext) (right_first : Bool) (fuel : ℕ) (words : WordsParser) (p : ExprParser)
    → 2 * length words.buffer < fuel
    → parse context right_first fuel words p ≢ out_of_fuel
unfolding parse
parse_total context right_first fuel words p h e =
    settled (parse_element context right_first fuel (record p { words = words }))
      (element-Ends context right_first fuel (record p { words = words }) h) e
  where
    settled :
        (r : Outcome (Bool × ExprParser))
        → Ends (length words.buffer) r
        → (r >>= λ t. done (parsed context right_first t)) ≢ out_of_fuel
    settled (done (b, q)) ends f = cc
    settled fault ends f = cc
    settled out_of_fuel ends f = ends

-- ===== src/Expr/Steps.antt =====
-- One step of the parser on each kind of word.
use topy.Prelude.{
  ℕ, suc, Text, codes, text_eq, ◌≡◌, refl, ap, ◌∙◌, Bool, true, false, ◌&&◌, ◌||◌, List, [], ◌∷◌,
  ◌++◌, if◌then◌else◌,
}
use Prim.Native.Nat.{bit_or}
use topy.Groups.{Group, Groups, get}
use topy.Expr.{ExprContext, ExprBool, const, neg, and, or, prefix, suffix}
use topy.Expr.Parser.{
  ExprParser, Outcome, done, ◌>>=◌, token_of, close, open_, bracket, true_word, false_word,
  not_word, and_word, or_word, prefix_word, suffix_word, push, replace, pop_one, pop_two,
  parse_element, parse_expr, parse_bracket, parse_filter, is_unknown,
}
use topy.WordsParser.{WordsParser, next}
use topy.WordsParser.Reading.{IsWord, Break, next_word}

module _ (context : ExprContext) (right_first : Bool) (table : ℕ → ℕ) (err : Text)
    (space : table 32 ≡ 0) where
  -- A state by its current word, its buffer and its stack.
  abbrev pub at : Text → Text → List ExprBool → ExprParser
  at cur buf st = record {
    words = record { char_classe = table; buffer = buf; current = cur };
    stack = st;
    error_msg = err;
  }

  advance_at :
      (cur w rest : Text) (st : List ExprBool)
      → IsWord table w
      → Break table rest
      → next (at cur (32 ∷ (w ++ rest)) st).words ≡ (at w rest st).words
  advance_at cur w rest st word break =
      next_word (at cur (32 ∷ (w ++ rest)) st).words 32 w rest refl space word break

  abbrev reading : WordsParser → List ExprBool → ExprParser
  reading words st = record { words = words; stack = st; error_msg = err }

  -- A word behind a space: the parser goes on behind it, by the kind of the word.
  module _ (cur w rest : Text) (st : List ExprBool) (fuel : ℕ) (word : IsWord table w)
      (break : Break table rest) where
    read : next (at cur (32 ∷ (w ++ rest)) st).words ≡ (at w rest st).words
    read = advance_at cur w rest st word break

    abbrev outcome : Outcome (Bool × ExprParser)
    outcome = parse_element context right_first (suc fuel) (at cur (32 ∷ (w ++ rest)) st)

    pub element_true : token_of w ≡ true_word → outcome ≡ done (true, at w rest (const true ∷ st))
    unfolding parse_element push
    element_true e =
        rw (read, parse_element, e)
          (ap (λ (ws : WordsParser). done (true, push (const true) (reading ws st))) read)

    pub element_false :
        token_of w ≡ false_word → outcome ≡ done (true, at w rest (const false ∷ st))
    unfolding parse_element push
    element_false e =
        rw (read, parse_element, e)
          (ap (λ (ws : WordsParser). done (true, push (const false) (reading ws st))) read)

    pub element_prefix :
        (s : Text) → token_of w ≡ prefix_word s → outcome ≡ done (true, at w rest (prefix s ∷ st))
    unfolding parse_element push
    element_prefix s e =
        rw (read, parse_element, e)
          (ap (λ (ws : WordsParser). done (true, push (prefix s) (reading ws st))) read)

    pub element_suffix :
        (s : Text) → token_of w ≡ suffix_word s → outcome ≡ done (true, at w rest (suffix s ∷ st))
    unfolding parse_element push
    element_suffix s e =
        rw (read, parse_element, e)
          (ap (λ (ws : WordsParser). done (true, push (suffix s) (reading ws st))) read)

    pub element_close : token_of w ≡ close → outcome ≡ done (false, at w rest st)
    unfolding parse_element
    element_close e =
        rw (read, parse_element, e) (ap (λ (ws : WordsParser). done (false, reading ws st)) read)

    pub element_bracket :
        token_of w ≡ bracket
        → outcome ≡ parse_bracket context right_first fuel context.groups (at w rest st)
    unfolding parse_element
    element_bracket e =
        rw (read, parse_element, e)
          (ap
            (λ (ws : WordsParser).
              parse_bracket context right_first fuel context.groups (reading ws st))
            read)

    pub element_open :
        (q : ExprParser) (b : Bool)
        → token_of w ≡ open_
        → parse_expr context right_first fuel (at w rest st) ≡ done (b, q)
        → outcome ≡ done (b && text_eq q.words.current (codes ")"), q)
    unfolding parse_element
    element_open q b e inner =
        rw (read, parse_element, e)
          (ap (λ (ws : WordsParser). closed (parse_expr context right_first fuel (reading ws st)))
              read
            ∙ ap closed inner)
      where
        closed : Outcome (Bool × ExprParser) → Outcome (Bool × ExprParser)
        closed o = o >>= λ r. done (r.0 && text_eq r.1.words.current (codes ")"), r.1)

    pub element_not :
        (cur' buf : Text) (x : ExprBool)
        → token_of w ≡ not_word
        → parse_element context right_first fuel (at w rest st) ≡ done (true, at cur' buf (x ∷ st))
        → outcome ≡ done (true, at cur' buf (neg x ∷ st))
    unfolding parse_element replace pop_one
    element_not cur' buf x e operand =
        rw (read, parse_element, e)
          (ap
              (λ (ws : WordsParser).
                negated (parse_element context right_first fuel (reading ws st)))
              read
            ∙ ap negated operand)
      where
        negated : Outcome (Bool × ExprParser) → Outcome (Bool × ExprParser)
        negated o = o >>= λ r. if r.0 then replace r.1 (pop_one neg r.1.stack) else done r

  -- A binary operator behind its first operand x.
  module _ (cur w rest : Text) (x : ExprBool) (st : List ExprBool) (fuel : ℕ)
      (word : IsWord table w) (break : Break table rest) (cur' buf : Text) (y : ExprBool)
      (operand : parse_element context right_first fuel (at w rest (x ∷ st))
        ≡ done (true, at cur' buf (y ∷ x ∷ st))) where
    combined :
        (ExprBool → ExprBool → ExprBool) → Outcome (Bool × ExprParser) → Outcome (Bool × ExprParser)
    combined f o = o >>= λ r. if r.0 then replace r.1 (pop_two right_first f r.1.stack) else done r

    pub element_and :
        token_of w ≡ and_word
        → parse_element context right_first (suc fuel) (at cur (32 ∷ (w ++ rest)) (x ∷ st))
          ≡ done (true, at cur' buf ((if right_first then and y x else and x y) ∷ st))
    unfolding parse_element replace pop_two combined
    element_and e =
        rw (advance_at cur w rest (x ∷ st) word break, parse_element, e)
          (ap
              (λ (ws : WordsParser).
                combined and (parse_element context right_first fuel (reading ws (x ∷ st))))
              (advance_at cur w rest (x ∷ st) word break)
            ∙ ap (combined and) operand)

    pub element_or :
        token_of w ≡ or_word
        → parse_element context right_first (suc fuel) (at cur (32 ∷ (w ++ rest)) (x ∷ st))
          ≡ done (true, at cur' buf ((if right_first then or y x else or x y) ∷ st))
    unfolding parse_element replace pop_two combined
    element_or e =
        rw (advance_at cur w rest (x ∷ st) word break, parse_element, e)
          (ap
              (λ (ws : WordsParser).
                combined or (parse_element context right_first fuel (reading ws (x ∷ st))))
              (advance_at cur w rest (x ∷ st) word break)
            ∙ ap (combined or) operand)

  -- The loop of parse_expr goes on after an element, and ends where none is.
  pub expr_goes_on :
      (p q : ExprParser) (fuel : ℕ)
      → parse_element context right_first fuel p ≡ done (true, q)
      → parse_expr context right_first (suc fuel) p ≡ parse_expr context right_first fuel q
  unfolding parse_expr
  expr_goes_on p q fuel e = rw (e, parse_expr)

  pub expr_stops :
      (p q : ExprParser) (fuel : ℕ)
      → parse_element context right_first fuel p ≡ done (false, q)
      → parse_expr context right_first (suc fuel) p
        ≡ done (text_eq q.words.current (codes ")") || text_eq q.words.current [], q)
  unfolding parse_expr
  expr_stops p q fuel e = rw (e, parse_expr)

  -- The names of a filter, each known and behind a space, up to the bracket.
  pub filter_step :
      (gs : Groups) (f : Group) (cur w rest : Text) (st : List ExprBool) (fuel : ℕ)
      → IsWord table w
      → Break table rest
      → text_eq w (codes "]") ≡ false
      → text_eq w [] ≡ false
      → is_unknown (get w gs) ≡ false
      → parse_filter context right_first (suc fuel) gs f (at cur (32 ∷ (w ++ rest)) st)
        ≡ parse_filter context right_first fuel gs
            (record { id = bit_or f.id (get w gs).id; mask = bit_or f.mask (get w gs).mask })
            (at w rest st)
  unfolding parse_filter
  filter_step gs f cur w rest st fuel word break goes_on some_word known =
      let read = advance_at cur w rest st word break in
      rw (read, parse_filter, goes_on, read, some_word, read, known)
        (ap
          (λ (ws : WordsParser).
            parse_filter context right_first fuel gs
              (record {
                id = bit_or f.id (get ws.current gs).id;
                mask = bit_or f.mask (get ws.current gs).mask;
              })
              (reading ws st))
          read)

  pub filter_end :
      (gs : Groups) (f : Group) (cur rest : Text) (st : List ExprBool) (fuel : ℕ)
      → IsWord table (codes "]")
      → Break table rest
      → parse_filter context right_first (suc fuel) gs f (at cur (32 ∷ 93 ∷ rest) st)
        ≡ done (true, f, at (codes "]") rest st)
  unfolding parse_filter
  filter_end gs f cur rest st fuel word break =
      let read = advance_at cur (codes "]") rest st word break in
      rw (read, parse_filter) (ap (λ (ws : WordsParser). done (true, f, reading ws st)) read)

-- ===== src/Expr/Parser.antt =====
-- ExprParser of src/expr_bool.cc. It works on fuel: `out_of_fuel` is none of the program's results,
-- and a `fault` is a pop of an empty stack, which the source does not test for.
pub mod Tokens
use Prim.Native.Nat.{bit_or}
use topy.Prelude.{
  ℕ, zero, suc, Text, codes, text_eq, Bool, true, false, ◌&&◌, ◌||◌, Option, none, some, List, [],
  ◌∷◌, ◌++◌, ltb, ◌==◌, if◌then◌else◌, length,
}
use topy.Groups
use topy.Groups.{Group, Groups, group_unknown}
use topy.Expr.{ExprContext, ExprBool, const, neg, and, or, filter, prefix, suffix}
use topy.WordsParser.{WordsParser, next}

pub record ExprParser : Type 0 where
  pub words : WordsParser
  pub stack : List ExprBool
  pub error_msg : Text

pub data Outcome {ℓ} (A : Type ℓ) : Type ℓ where
  done : A → Outcome A
  fault : Outcome A
  out_of_fuel : Outcome A

infixl 5 ◌>>=◌
abbrev pub ◌>>=◌ {ℓ κ} : {A : Type ℓ} {B : Type κ} → Outcome A → (A → Outcome B) → Outcome B
done a >>= f = f a
fault >>= f = fault
out_of_fuel >>= f = out_of_fuel

-- What the tests of parse_element make of a word, in their order.
pub data Token : Type 0 where
  end close open_ bracket true_word false_word not_word and_word or_word other : Token
  prefix_word suffix_word : Text → Token

last_is : ℕ → Text → Bool
last_is c [] = false
last_is c (d ∷ []) = d == c
last_is c (d ∷ e ∷ s) = last_is c (e ∷ s)

pub without_last : Text → Text
without_last [] = []
without_last (d ∷ []) = []
without_last (d ∷ e ∷ s) = d ∷ without_last (e ∷ s)

word_token : Text → Token
word_token w =
    if text_eq w (codes "true")
    then true_word
    else if text_eq w (codes "false")
    then false_word
    else if text_eq w (codes "!") || text_eq w (codes "not")
    then not_word
    else if text_eq w (codes "and") || text_eq w (codes "&&")
    then and_word
    else if text_eq w (codes "or") || text_eq w (codes "||")
    then or_word
    else other

affix_token : Text → Token
unfolding word_token last_is without_last
affix_token [] = end
affix_token (c ∷ s) =
    if ltb 1 (length (c ∷ s)) && c == b'^'
    then prefix_word s
    else if ltb 1 (length (c ∷ s)) && last_is b'$' (c ∷ s)
    then suffix_word (without_last (c ∷ s))
    else word_token (c ∷ s)

unfoldable pub token_of : Text → Token
unfolding affix_token
token_of w =
    if text_eq w []
    then end
    else if text_eq w (codes ")")
    then close
    else if text_eq w (codes "(")
    then open_
    else if text_eq w (codes "[")
    then bracket
    else affix_token w

unfoldable pub push : ExprBool → ExprParser → ExprParser
push e p = record p { stack = e ∷ p.stack }

-- pop, then make of the popped element the one that is pushed.
unfoldable pub pop_one : (ExprBool → ExprBool) → List ExprBool → Outcome (List ExprBool)
pop_one f [] = fault
pop_one f (x ∷ st) = done (f x ∷ st)

-- new ExprBoolAnd(pop(), pop()): C++ leaves open which argument is evaluated first; the constructor
-- stores the second argument as child[0].
unfoldable pub pop_two :
    Bool → (ExprBool → ExprBool → ExprBool) → List ExprBool → Outcome (List ExprBool)
pop_two right_first f [] = fault
pop_two right_first f (x ∷ []) = fault
pop_two right_first f (x ∷ y ∷ st) = done ((if right_first then f x y else f y x) ∷ st)

unfoldable pub replace : ExprParser → Outcome (List ExprBool) → Outcome (Bool × ExprParser)
replace p r = do st ← r; done (true, record p { stack = st })

unfoldable pub is_unknown : Group → Bool
is_unknown g = g.id == group_unknown

module _ (context : ExprContext) (right_first : Bool) where
  -- parse_filter: the filter so far is an argument.
  unfoldable pub parse_filter :
      ℕ → Groups → Group → ExprParser → Outcome (Bool × Group × ExprParser)
  parse_filter zero gs f p = out_of_fuel
  parse_filter (suc fuel) gs f p =
      let q = record p { words = next p.words } in
      let word = q.words.current in
      let g = Groups.get word gs in
      elim (text_eq word (codes "]")) [
        | true ↦ done (true, f, q)
        | false ↦ elim (text_eq word []) [
          | true ↦ done (false, f, q)
          | false ↦ elim (is_unknown g) [
            | true ↦ done (false, f, record q { error_msg = codes "Unknown group: " ++ word })
            | false ↦
                parse_filter fuel gs (record { id = bit_or f.id g.id; mask = bit_or f.mask g.mask })
                  q
          ]
        ]
      ]

  unfoldable pub parse_bracket : ℕ → Option Groups → ExprParser → Outcome (Bool × ExprParser)
  unfolding parse_filter push
  parse_bracket fuel none p = done (false, p)
  parse_bracket fuel (some gs) p = do
    (found, f, q) ← parse_filter fuel gs (record { id = 0; mask = 0 }) p
    if found then done (true, push (filter f) q) else done (false, q)

  unfoldable mutual
    pub parse_element : ℕ → ExprParser → Outcome (Bool × ExprParser)
    parse_element zero p = out_of_fuel
    parse_element (suc fuel) p =
        let q = record p { words = next p.words } in
        elim (token_of q.words.current) [
          | end ↦ done (false, q)
          | close ↦ done (false, q)
          | open_ ↦
              parse_expr fuel q >>= λ r. done (r.0 && text_eq r.1.words.current (codes ")"), r.1)
          | bracket ↦ parse_bracket fuel context.groups q
          | prefix_word str ↦ done (true, push (prefix str) q)
          | suffix_word str ↦ done (true, push (suffix str) q)
          | true_word ↦ done (true, push (const true) q)
          | false_word ↦ done (true, push (const false) q)
          | not_word ↦ parse_element fuel q >>= λ r.
              if r.0 then replace r.1 (pop_one neg r.1.stack) else done r
          | and_word ↦ elim (q.stack) [
            | [] ↦ done (false, q)
            | _ ↦ parse_element fuel q >>= λ r.
                if r.0 then replace r.1 (pop_two right_first and r.1.stack) else done r
          ]
          | or_word ↦ elim (q.stack) [
            | [] ↦ done (false, q)
            | _ ↦ parse_element fuel q >>= λ r.
                if r.0 then replace r.1 (pop_two right_first or r.1.stack) else done r
          ]
          | other ↦ done (false, record q { error_msg = codes "Unexpected: " ++ q.words.current })
        ]

    pub parse_expr : ℕ → ExprParser → Outcome (Bool × ExprParser)
    parse_expr zero p = out_of_fuel
    parse_expr (suc fuel) p = parse_element fuel p >>= λ r. elim (r.0) [
      | true ↦ parse_expr fuel r.1
      | false ↦ done (text_eq r.1.words.current (codes ")") || text_eq r.1.words.current [], r.1)
    ]

  -- What parse returns: the expression, or none for NULL.
  pub parsed : Bool × ExprParser → Option ExprBool × ExprParser
  parsed (false, p) = (none, p)
  parsed (true, p) = elim (p.stack) [
    | [] ↦ (none, p)
    | e ∷ st ↦ elim st [ [] ↦ (some e, record p { stack = [] }) | _ ↦ (none, p) ]
  ]

  -- ExprParser::parse(WordsParser *)
  unfoldable pub parse : ℕ → WordsParser → ExprParser → Outcome (Option ExprBool × ExprParser)
  unfolding parsed
  parse fuel words p = do r ← parse_element fuel (record p { words = words }); done (parsed r)

  -- ExprParser::parse(std::string), which reads a whole expression.
  unfoldable pub parse_string :
      ℕ → WordsParser → ExprParser → Outcome (Option ExprBool × ExprParser)
  unfolding parsed
  parse_string fuel words p = do r ← parse_expr fuel (record p { words = words }); done (parsed r)

-- The constructor.
abbrev pub new_expr_parser : WordsParser → ExprParser
new_expr_parser words = record { words = words; stack = []; error_msg = [] }

-- ===== src/Expr/Tests.antt =====
-- Runs of the parser.
use topy.Prelude.{◌≡◌, refl, codes, true, false, Option, none, some, []}
use topy.Expr.{ExprContext, ExprBool, const, neg, and, prefix}
use topy.Expr.Parser.{
  Outcome, done, fault, ◌>>=◌, parse, new_expr_parser, token_of, replace, pop_one, pop_two, push,
  parse_element,
}
use topy.WordsParser.{new_parser, next_with}
use Prim.Native.String.{String}

abbrev no_groups : ExprContext
no_groups = record { groups = none; group = 0; id = none }

abbrev run : String → Outcome (Option ExprBool)
run s =
    parse no_groups true 40 (new_parser (λ c. 255) (codes s))
      (new_expr_parser (new_parser (λ c. 255) []))
    >>= λ r. done r.0

parse_infix : run "(^ab and !false)" ≡ done (some (and (neg (const false)) (prefix (codes "ab"))))
unfolding parse parse_element next_with token_of replace pop_one pop_two push new_parser
parse_infix = refl

-- A pair of parentheses with nothing inside is accepted as an operand, and `!` then finds no operand.
parse_fault : run "!()" ≡ fault
unfolding parse parse_element next_with token_of replace pop_one pop_two push new_parser
parse_fault = refl

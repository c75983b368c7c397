-- ===== src/Filter.antt =====
-- src/filter.cc: the where clause of a command, compiled once and tried on users.
pub mod Clause
use topy.Prelude.{ℕ, Text, codes, Bool, true, false, not, ◌||◌, Option, none, some, [], ◌∷◌}
use topy.Groups.{Groups, group_undef}
use topy.Expr
use topy.Expr.{ExprBool, ExprContext}
use topy.Expr.Parser.{ExprParser, Outcome, done, ◌>>=◌, parse, new_expr_parser}
use topy.WordsParser.{WordsParser, next}

pub record Filter : Type 0 where
  pub parser : ExprParser
  pub expr : Option ExprBool

-- The constructor.
pub new_filter : WordsParser → Filter
new_filter words = record { parser = new_expr_parser words; expr = none }

-- The context that compile sets; eval sets the group and the id before they are read.
abbrev pub compile_context : Groups → ExprContext
compile_context gs = record { groups = some gs; group = group_undef; id = none }

compiled : Filter → Option ExprBool × ExprParser → Bool × Filter × WordsParser
compiled f (none, p) = (false, record { parser = p; expr = none }, p.words)
compiled f (some e, p) = (true, record { parser = p; expr = some e }, next p.words)

-- Filter::compile, which leaves the words behind the clause and one word more.
pub compile : Bool → ℕ → Groups → WordsParser → Filter → Outcome (Bool × Filter × WordsParser)
unfolding compiled
compile right_first fuel gs words f =
    parse (compile_context gs) right_first fuel words f.parser >>= λ r. done (compiled f r)

pub is_defined : Filter → Bool
is_defined f = elim (f.expr) [ none ↦ false | some e ↦ true ]

-- Filter::eval on a user's group and id, in a build with ids that are strings; `none` is the use of NULL.
pub eval : Groups → Text → ℕ → Filter → Option Bool
eval gs id group f = elim (f.expr) [
  | none ↦ none
  | some e ↦ some (Expr.get (record { groups = some gs; group = group; id = some id }) e)
]

-- !filter.is_defined() or filter.eval(user)
unfoldable pub passes : Groups → Text → ℕ → Filter → Bool
unfolding is_defined eval
passes gs id group f = not (is_defined f) || elim (eval gs id group f) [ none ↦ false | some b ↦ b ]

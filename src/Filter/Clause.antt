-- ===== src/Filter/Clause.antt =====
-- Filter::compile and Filter::eval of src/filter.cc on the words of a formula.
use topy.Prelude.{ℕ, ◌*◌, ◌<◌, ◌≡◌, refl, ap, ◌∙◌, Text, Bool, true, Option, some, [], ◌++◌, length}
use topy.Groups.{Groups}
use topy.Expr
use topy.Expr.{ExprBool, ExprContext}
use topy.Expr.Formula.{Formula, words_of, spell, holds}
use topy.Expr.Spelling.{Reads, Printable, last_word}
use topy.Expr.Parser.{Outcome, done, ◌>>=◌, parse, ExprParser}
use topy.Expr.RoundTrip.{get-parse}
use topy.Filter.{Filter, new_filter, compile, compile_context, compiled, passes}
use topy.WordsParser.{WordsParser, next}
use topy.WordsParser.Reading.{Break}

module _ (right_first : Bool) (table : ℕ → ℕ) (gs : Groups) (reads : Reads table) where
  abbrev words : Text → Text → WordsParser
  words cur buf = record { char_classe = table; buffer = buf; current = cur }

  passes-some :
      (p : ExprParser) (e : ExprBool) (id : Text) (group : ℕ)
      → passes gs id group (record { parser = p; expr = some e })
        ≡ Expr.get (record { groups = some gs; group = group; id = some id }) e
  unfolding passes
  passes-some p e id group = refl

  -- A new filter compiles the words of a formula, each behind a space, with success, stops one word
  -- behind them, and then lets through exactly the users, by group and id, of whom the formula
  -- holds; the table must read the words of the language and of the formula whole, the names in
  -- brackets must be known groups of the registry, what follows must be nothing or a space, and the
  -- fuel must be above twice the number of characters.
  pub passes-compile :
      (f : Formula) (fuel : ℕ) (cur rest : Text)
      → Printable table gs f
      → Break table rest
      → 2 * length (spell (words_of f) ++ rest) < fuel
      → let start = words cur (spell (words_of f) ++ rest) in
        (filter : Filter) × (compile right_first fuel gs start (new_filter start)
          ≡ done (true, filter, next (words (last_word f) rest)))
        × ((id : Text) (group : ℕ)
            → passes gs id group filter
              ≡ holds gs (record { groups = some gs; group = group; id = some id }) f)
  unfolding compile new_filter compiled parse
  passes-compile f fuel cur rest p b h =
      let (e, parsed_as, meaning) =
        get-parse (compile_context gs) right_first table [] gs reads refl f fuel cur rest p b h in
      (
        _,
        ap
            (λ (o : Outcome (Option ExprBool × ExprParser)).
              o >>= λ r. done (compiled (new_filter (words cur (spell (words_of f) ++ rest))) r))
            parsed_as,
        λ id group.
            passes-some _ e id group
            ∙ meaning (record { groups = some gs; group = group; id = some id }),
      )

-- ===== src/Tests/Commands.antt =====
-- The theorems on texts, words and expressions at concrete inputs.
use topy.Filter.{Filter, new_filter, compile, passes}
use topy.Filter.Clause.{passes-compile}
use topy.Prelude.{
  Text, ℕ, ◌≡◌, ◌≢◌, refl, codes, true, none, some, ◌++◌, true, false, [], ◌∷◌, arith,
}
use topy.StringUtils.{split, addslashes, stripslashes}
use topy.StringUtils.Split.{join, split-join}
use topy.StringUtils.Slashes.{stripslashes-addslashes}
use topy.WordsParser.{WordsParser, next, default_classes}
use topy.WordsParser.Reading.{plain, separator, next_word}
use topy.Expr
use topy.Expr.{ExprContext, ExprBool}
use topy.StdMap
use topy.Groups.{Groups, get}
use topy.Expr.Formula.{Formula, both, negation, in_groups, id_begins, words_of, spell, holds}
use topy.Expr.Spelling.{Reads, Printable}
use topy.Expr.RoundTrip.{get-parse}
use topy.Expr.Parser.{parse, new_expr_parser, out_of_fuel, done, is_unknown}
use topy.Expr.Fuel.{parse_total}

split-join_example :
    split (join b'+' (codes "ab") (codes "" ∷ codes "c" ∷ [])) b'+'
    ≡ codes "ab" ∷ codes "" ∷ codes "c" ∷ []
split-join_example =
    split-join b'+' (codes "ab") (codes "" ∷ codes "c" ∷ []) (refl, (refl, tt))
      (tt, ((refl, tt), tt))

stripslashes-addslashes_example :
    stripslashes (addslashes (b'a' ∷ 34 ∷ 92 ∷ 34 ∷ [])) ≡ some (b'a' ∷ 34 ∷ 92 ∷ 34 ∷ [])
stripslashes-addslashes_example = stripslashes-addslashes b'a' (34 ∷ 92 ∷ 34 ∷ [])

abbrev command : WordsParser
command = record {
  char_classe = default_classes (λ c. 255);
  buffer = codes " user inc";
  current = [];
}

next_word_example : next command ≡ record command { buffer = codes " inc"; current = codes "user" }
next_word_example =
    next_word command b' ' (codes "user") (codes " inc") refl refl
      (plain b'u' 255 (codes "ser") refl refl refl (refl, (refl, (refl, tt)))) refl

abbrev any_user : ExprContext
any_user = record { groups = none; group = 0; id = none }

parse_total_example : parse any_user true 40 command (new_expr_parser command) ≢ out_of_fuel
parse_total_example = parse_total any_user true 40 command (new_expr_parser command) (omega arith)

abbrev one_group : Groups
one_group = record { index_counter = 2; list = (codes "g", record { id = 1; mask = 0 }) ∷ [] }

abbrev with_groups : ExprContext
with_groups = record { groups = some one_group; group = 1; id = some (codes "bob") }

abbrev classes : ℕ → ℕ
classes = default_classes (λ c. 255)

classes-Reads : Reads classes
classes-Reads = record {
  space = refl;
  parentheses = (separator 40 refl, separator 41 refl);
  brackets = (separator 91 refl, separator 93 refl);
  constants = (
    plain b't' 255 (codes "rue") refl refl refl (refl, (refl, (refl, tt))),
    plain b'f' 255 (codes "alse") refl refl refl (refl, (refl, (refl, (refl, tt)))),
  );
  operators = (
    separator 33 refl,
    plain b'a' 255 (codes "nd") refl refl refl (refl, (refl, tt)),
    plain b'o' 255 (codes "r") refl refl refl (refl, tt),
  );
}

-- ( ^b and ! [ g ] )
abbrev formula : Formula
formula = both (id_begins b'b' []) (negation (in_groups (codes "g" ∷ [])))

g_known : is_unknown (get (codes "g") one_group) ≡ false
unfolding is_unknown get StdMap.find
g_known = refl

formula-Printable : Printable classes one_group formula
formula-Printable = (
  plain 94 255 (codes "b") refl refl refl (refl, tt),
  ((plain b'g' 255 [] refl refl refl tt, refl, g_known), tt),
)

get-parse_example :
    (e : ExprBool) × (parse with_groups true 100
        (record { char_classe = classes; buffer = spell (words_of formula) ++ []; current = [] })
        (record {
          words = record { char_classe = classes; buffer = []; current = [] };
          stack = [];
          error_msg = [];
        })
      ≡ done (
        some e,
        record {
          words = record { char_classe = classes; buffer = []; current = codes ")" };
          stack = [];
          error_msg = [];
        },
      ))
    × ((c : ExprContext) → Expr.get c e ≡ holds one_group c formula)
get-parse_example =
    get-parse with_groups true classes [] one_group classes-Reads refl formula 100 [] []
      formula-Printable tt (omega arith)

passes-compile_example :
    (filter : Filter) × (compile true 100 one_group
        (record { char_classe = classes; buffer = spell (words_of formula) ++ []; current = [] })
        (new_filter
          (record { char_classe = classes; buffer = spell (words_of formula) ++ []; current = [] }))
      ≡ done
          (true, filter, next (record { char_classe = classes; buffer = []; current = codes ")" })))
    × ((id : Text) (group : ℕ)
        → passes one_group id group filter
          ≡ holds one_group
              (record { groups = some one_group; group = group; id = some id })
              formula)
passes-compile_example =
    passes-compile true classes one_group classes-Reads formula 100 [] [] formula-Printable tt
      (omega arith)

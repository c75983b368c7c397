-- ===== src/Expr/Formula.antt =====
-- The where clauses as a user means them: formulas, their words and their meaning, and the expression
-- that the parser should make of the words.
use topy.Prelude.{
  ℕ, Text, codes, Bool, true, false, not, ◌&&◌, ◌||◌, ◌≡◌, refl, List, [], ◌∷◌, ◌++◌, arith,
  if◌then◌else◌, append_assoc, ap, ◌∙◌, sym,
}
use topy.Groups.{Groups}
use topy.Groups.Filters.{unite, no_filter}
use topy.Expr.{
  ExprContext, ExprBool, const, neg, and, or, filter, prefix, suffix, get, filter_get, prefix_get,
  suffix_get,
}

pub data Formula : Type 0 where
  constant : Bool → Formula
  in_groups : List Text → Formula
  id_begins : ℕ → Text → Formula
  id_ends : ℕ → Text → Formula
  negation : Formula → Formula
  both : Formula → Formula → Formula
  either : Formula → Formula → Formula

abbrev constant_word : Bool → Text
constant_word true = codes "true"
constant_word false = codes "false"

-- The words of a formula: operators between parentheses.
abbrev pub words_of : Formula → List Text
words_of (constant b) = constant_word b ∷ []
words_of (in_groups names) = codes "[" ∷ (names ++ (codes "]" ∷ []))
words_of (id_begins c s) = (b'^' ∷ c ∷ s) ∷ []
words_of (id_ends c s) = (c ∷ (s ++ (b'$' ∷ []))) ∷ []
words_of (negation f) = codes "!" ∷ words_of f
words_of (both f g) = codes "(" ∷ (words_of f ++ (codes "and" ∷ (words_of g ++ (codes ")" ∷ []))))
words_of (either f g) = codes "(" ∷ (words_of f ++ (codes "or" ∷ (words_of g ++ (codes ")" ∷ []))))

-- Each word behind a space.
abbrev pub spell : List Text → Text
spell [] = []
spell (w ∷ ws) = 32 ∷ (w ++ spell ws)

pub spell-append : (vs ws : List Text) → spell (vs ++ ws) ≡ spell vs ++ spell ws
spell-append [] ws = refl
spell-append (v ∷ vs) ws =
    ap (λ (t : Text). 32 ∷ (v ++ t)) (spell-append vs ws)
    ∙ ap (λ (t : Text). 32 ∷ t) (sym (append_assoc v (spell vs) (spell ws)))

-- What a formula says of a user with a group and an id.
pub holds : Groups → ExprContext → Formula → Bool
holds gs c (constant b) = b
holds gs c (in_groups names) = filter_get (unite gs no_filter names) c.group
holds gs c (id_begins d s) = prefix_get (d ∷ s) c.id
holds gs c (id_ends d s) = suffix_get (d ∷ s) c.id
holds gs c (negation f) = not (holds gs c f)
holds gs c (both f g) = holds gs c f && holds gs c g
holds gs c (either f g) = holds gs c f || holds gs c g

-- The expression of a formula; `right_first` is the compiler's order of the two pops.
abbrev pub expr_of : Bool → Groups → Formula → ExprBool
expr_of r gs (constant b) = const b
expr_of r gs (in_groups names) = filter (unite gs no_filter names)
expr_of r gs (id_begins d s) = prefix (d ∷ s)
expr_of r gs (id_ends d s) = suffix (d ∷ s)
expr_of r gs (negation f) = neg (expr_of r gs f)
expr_of r gs (both f g) =
    if r then and (expr_of r gs g) (expr_of r gs f) else and (expr_of r gs f) (expr_of r gs g)
expr_of r gs (either f g) =
    if r then or (expr_of r gs g) (expr_of r gs f) else or (expr_of r gs f) (expr_of r gs g)

-- The expression has the meaning of the formula, in either order.
pub get-expr_of :
    (r : Bool) (gs : Groups) (c : ExprContext) (f : Formula) → get c (expr_of r gs f) ≡ holds gs c f
unfolding get holds
get-expr_of r gs c (constant b) = refl
get-expr_of r gs c (in_groups names) = refl
get-expr_of r gs c (id_begins d s) = refl
get-expr_of r gs c (id_ends d s) = refl
get-expr_of r gs c (negation f) = rw (get-expr_of r gs c f)
get-expr_of true gs c (both f g) = ground (arith, get-expr_of true gs c f, get-expr_of true gs c g)
get-expr_of false gs c (both f g) =
    ground (arith, get-expr_of false gs c f, get-expr_of false gs c g)
get-expr_of true gs c (either f g) =
    ground (arith, get-expr_of true gs c f, get-expr_of true gs c g)
get-expr_of false gs c (either f g) =
    ground (arith, get-expr_of false gs c f, get-expr_of false gs c g)

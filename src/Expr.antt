-- ===== src/Expr.antt =====
-- src/expr_bool.cc and src/filter.cc: the Boolean expressions of the where clauses, over the group and
-- the id of a user.
pub mod Parser
pub mod Ends
pub mod Fuel
pub mod Formula
pub mod Steps
pub mod Spelling
pub mod RoundTrip
mod Tests
use Prim.Native.Nat.{bit_and}
use topy.Prelude.{
  ℕ, zero, suc, ◌-◌, Text, codes, Bool, true, false, not, ◌&&◌, ◌||◌, Option, none, some, List, [],
  ◌∷◌, ◌++◌, ltb, ◌==◌, if◌then◌else◌, length, drop,
}
use topy.Groups.{Group, Groups}

-- ExprContext. A user without a string id has none.
pub record ExprContext : Type 0 where
  pub groups : Option Groups
  pub group : ℕ
  pub id : Option Text

-- The classes derived from ExprBool that the parser makes; `and` and `or` have child[0] and child[1].
pub data ExprBool : Type 0 where
  const : Bool → ExprBool
  neg : ExprBool → ExprBool
  and : ExprBool → ExprBool → ExprBool
  or : ExprBool → ExprBool → ExprBool
  filter : Group → ExprBool
  prefix : Text → ExprBool
  suffix : Text → ExprBool

-- strncmp(id, str, str.size()) == 0
pub starts_with : Text → Text → Bool
starts_with id [] = true
starts_with [] (c ∷ str) = false
starts_with (d ∷ id) (c ∷ str) = d == c && starts_with id str

pub filter_get : Group → ℕ → Bool
filter_get f group = if f.mask == 0 then group == f.id else bit_and group f.mask == f.id

pub prefix_get : Text → Option Text → Bool
unfolding starts_with
prefix_get str none = false
prefix_get str (some id) = starts_with id str

pub suffix_get : Text → Option Text → Bool
unfolding starts_with
suffix_get str none = false
suffix_get str (some id) =
    if ltb (length id) (length str)
    then false
    else starts_with (drop (length id - length str) id) str

-- The virtual method get.
unfoldable pub get : ExprContext → ExprBool → Bool
unfolding filter_get prefix_get suffix_get
get c (const value) = value
get c (neg child) = not (get c child)
get c (and a b) = get c a && get c b
get c (or a b) = get c a || get c b
get c (filter f) = filter_get f c.group
get c (prefix str) = prefix_get str c.id
get c (suffix str) = suffix_get str c.id

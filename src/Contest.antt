-- ===== src/Contest.antt =====
-- A contest: the class Contest of src/contest.cc, which keeps all the items of its TopBase. The lists
-- are shorter than 2^31, so that the positions are values of `int`.
pub mod Positions
use topy.Prelude.{ℕ, zero, suc, List, [], ◌∷◌, ℤ, pos, negsuc, ◌==◌, if◌then◌else◌, length}
use topy.Top.{TopItem, add_item, sort}

unfoldable pub add : ℕ → ℤ → List TopItem → List TopItem
unfolding add_item
add user score list = add_item list user score

unfoldable pub finalize : List TopItem → List TopItem
unfolding sort
finalize list = sort list

unfoldable pub size : List TopItem → ℕ
size list = length list

-- The loop of find, from the position i on; -1 when it gets to the end.
unfoldable pub find_from : ℕ → ℕ → List TopItem → ℤ
find_from user i [] = negsuc 0
find_from user i (x ∷ list) =
    let rest = find_from user (suc i) list in if x.user == user then pos i else rest

unfoldable pub find : ℕ → List TopItem → ℤ
unfolding find_from
find user list = find_from user 0 list

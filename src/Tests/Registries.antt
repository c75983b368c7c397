-- ===== src/Tests/Registries.antt =====
-- The theorems on groups at concrete inputs.
use topy.Prelude.{codes, ◌≡◌, refl, none, [], ◌∷◌, ◌++◌, arith}
use topy.StdMap
use topy.StdMap.{StdMap}
use topy.StdMap.Laws.{IsOrdered}
use topy.StringUtils.{split}
use topy.Groups.{Groups, group_unknown, add, get_id, get_name, get, filter_parse}
use topy.Groups.Ids.{IsFresh, get_name-add}
use topy.Groups.Filters.{
  IsMasked, AllMasked, unite, no_filter, filter_parse_masked, filter_parse_first,
}

-- A plain group and two with masks.
abbrev three_groups : Groups
three_groups = record {
  index_counter = 7;
  list =
      (codes "a", record { id = 4; mask = 6 })
      ∷ (codes "b", record { id = 1; mask = 0 })
      ∷ (codes "c", record { id = 1; mask = 1 })
      ∷ [];
}

three_groups-IsOrdered : IsOrdered three_groups.list
three_groups-IsOrdered = ((refl, (refl, tt)), ((refl, tt), (tt, tt)))

three_groups-IsFresh : IsFresh three_groups
three_groups-IsFresh = record {
  below = (omega arith, (omega arith, (omega arith, tt)));
  ordered = three_groups-IsOrdered;
}

d_unknown : get_id (codes "d") three_groups ≡ group_unknown
unfolding get_id StdMap.find
d_unknown = refl

get_name-add_example :
    get_name (add (codes "d") three_groups).1 (add (codes "d") three_groups).0 ≡ codes "d"
get_name-add_example =
    get_name-add (codes "d") three_groups three_groups-IsFresh d_unknown (omega arith)

nothing_there : StdMap.find (codes "d") three_groups.list ≡ none
unfolding StdMap.find
nothing_there = refl

nothing_there_either : StdMap.find (codes "e") three_groups.list ≡ none
unfolding StdMap.find
nothing_there_either = refl

a_IsMasked : IsMasked three_groups (codes "a")
unfolding StdMap.find
a_IsMasked = (record { id = 4; mask = 6 }, refl, refl)

c_IsMasked : IsMasked three_groups (codes "c")
unfolding StdMap.find
c_IsMasked = (record { id = 1; mask = 1 }, refl, refl)

two_masked : AllMasked three_groups (split (codes "a+c") b'+')
unfolding split
two_masked = (a_IsMasked, (c_IsMasked, tt))

filter_parse_masked_example :
    filter_parse (codes "a+c") three_groups
    ≡ unite three_groups no_filter (split (codes "a+c") b'+')
filter_parse_masked_example = filter_parse_masked (codes "a+c") three_groups two_masked

b_splits : split (codes "a+b+d") b'+' ≡ (codes "a" ∷ []) ++ (codes "b" ∷ codes "d" ∷ [])
unfolding split
b_splits = refl

b_plain : (get (codes "b") three_groups).mask ≡ 0
unfolding get StdMap.find
b_plain = refl

filter_parse_first_example :
    filter_parse (codes "a+b+d") three_groups ≡ get (codes "b") three_groups
filter_parse_first_example =
    filter_parse_first (codes "a+b+d") (codes "b") (codes "a" ∷ []) (codes "d" ∷ []) three_groups
      b_splits (a_IsMasked, tt) b_plain

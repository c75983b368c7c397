-- ===== src/Groups.antt =====
-- src/groups.cc: the groups of users, by name. A group of mask 0 is plain; another stands for the
-- bits of its mask. Numbers are uint32_t.
pub mod Ids
pub mod Filters
pub mod Dump
use Prim.Native.Nat.{bit_and, bit_or}
use topy.Prelude.{
  ℕ, ◌+◌, ◌-◌, ◌%◌, ◌^◌, Text, Bool, true, false, not, ◌&&◌, Option, none, some, List, [], ◌∷◌,
  ◌++◌, ltb, leb, ◌==◌, if◌then◌else◌,
}
use topy.StdMap
use topy.StdMap.{StdMap}
use topy.StringUtils.{split}

abbrev pub group_undef : ℕ
group_undef = 0

-- (GroupId) ~0
abbrev pub group_unknown : ℕ
group_unknown = 2 ^ 32 - 1

pub record Group : Type 0 where
  pub id : ℕ
  pub mask : ℕ

abbrev pub unknown_group : Group
unknown_group = record { id = group_unknown; mask = 0 }

pub record Groups : Type 0 where
  pub index_counter : ℕ
  pub list : StdMap Group

-- Groups::Groups
pub new_groups : Groups
new_groups = record { index_counter = 1; list = [] }

id_of : Option Group → ℕ
id_of none = group_unknown
id_of (some g) = g.id

unfoldable pub del : Text → Groups → Groups × ℕ
unfolding id_of
del name gs = elim (StdMap.find name gs.list) [
  | none ↦ (gs, group_unknown)
  | some g ↦ (record gs { list = StdMap.erase name gs.list }, g.id)
]

-- add(name): an existing group keeps its id and the counter stays.
unfoldable pub add : Text → Groups → Groups × ℕ
add name gs =
    let (list, fresh, g) =
      StdMap.insert name (record { id = gs.index_counter; mask = 0 }) gs.list in
    (
      record {
        index_counter = if fresh then (gs.index_counter + 1) % 2 ^ 32 else gs.index_counter;
        list = list;
      },
      g.id,
    )

-- add(name, id, mask)
unfoldable pub add_masked : Text → ℕ → ℕ → Groups → Groups × ℕ
add_masked name id mask gs =
    let (list, fresh, g) = StdMap.insert name (record { id = id; mask = mask }) gs.list in
    (record gs { list = list }, g.id)

unfoldable pub get_id : Text → Groups → ℕ
unfolding id_of
get_id name gs = id_of (StdMap.find name gs.list)

pub get_mask : Text → Groups → ℕ
get_mask name gs = elim (StdMap.find name gs.list) [ none ↦ 0 | some g ↦ g.mask ]

unfoldable pub get : Text → Groups → Group
get name gs = elim (StdMap.find name gs.list) [ none ↦ unknown_group | some g ↦ g ]

-- find(id): the first entry with the id.
pub find_id : ℕ → StdMap Group → Option (Text × Group)
find_id id [] = none
find_id id ((name, g) ∷ rest) =
    let later = find_id id rest in if g.id == id then some (name, g) else later

-- The names of the masked groups that the id belongs to, joined by '+'.
name_loop : ℕ → Bool → StdMap Group → Text
name_loop id first [] = []
name_loop id first ((name, g) ∷ rest) =
    let shown = not (g.mask == 0) && bit_and id g.mask == g.id in
    let after = name_loop id (first && not shown) rest in
    if shown then (if first then name ++ after else b'+' ∷ name ++ after) else after

pub get_name : ℕ → Groups → Text
unfolding find_id name_loop
get_name id gs = elim (find_id id gs.list) [
  | none ↦ name_loop id true gs.list
  | some (name, g) ↦ if g.mask == 0 then name else name_loop id true gs.list
]

-- The loop of filter_parse over the parts of the text.
pub filter_loop : StdMap Group → Group → List Text → Group
filter_loop list filter [] = filter
filter_loop list filter (part ∷ rest) = elim (StdMap.find part list) [
  | none ↦ unknown_group
  | some g ↦ elim (g.mask == 0) [
    | true ↦ g
    | false ↦
        filter_loop list (record { id = bit_or filter.id g.id; mask = bit_or filter.mask g.mask })
          rest
  ]
]

unfoldable pub filter_parse : Text → Groups → Group
unfolding filter_loop
filter_parse str gs = filter_loop gs.list (record { id = 0; mask = 0 }) (split str b'+')

unfoldable pub restore_group : Text → ℕ → ℕ → Groups → Groups
restore_group name id mask gs = record {
  list = (StdMap.insert name (record { id = id; mask = mask }) gs.list).0;
  index_counter = if leb gs.index_counter id then (id + 1) % 2 ^ 32 else gs.index_counter;
}

-- `Groups();` in the source makes another object: the counter of this one stays.
unfoldable pub clear : Groups → Groups
clear gs = record gs { list = [] }

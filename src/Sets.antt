-- ===== src/Sets.antt =====
-- The named sets of users, UsersSets of src/users_sets.cc, and the named contests, Contests of
-- src/contests.cc, which have the same methods. A set is known by its address; `freed` lists the
-- addresses in the order of their deletions. The use of an iterator whose entry has been erased is the
-- outcome `undefined`.
pub mod Ownership
use topy.Prelude.{
  ℕ, ◌+◌, Text, Bool, true, false, Option, none, some, List, [], ◌∷◌, ◌++◌, if◌then◌else◌,
}
use topy.StdMap
use topy.StdMap.{StdMap}

pub record Sets : Type 0 where
  pub list : StdMap ℕ
  pub next : ℕ
  pub freed : List ℕ

-- add: `none` is NULL.
unfoldable pub add : Text → ℕ → Sets → Sets × Option ℕ
add name set s =
    let (list, inserted, value) = StdMap.insert name set s.list in
    (record s { list = list }, if inserted then some value else none)

unfoldable pub find : Text → Sets → Option ℕ
find name s = StdMap.find name s.list

-- find_or_create: a new set gets an address that no set had before.
unfoldable pub or_create : Text → Sets → Option ℕ → Sets × Option ℕ
unfolding add
or_create name s none = add name s.next (record s { next = s.next + 1 })
or_create name s (some set) = (s, some set)

unfoldable pub find_or_create : Text → Sets → Sets × Option ℕ
unfolding or_create find
find_or_create name s = or_create name s (find name s)

-- del: `none` is NULL. For a name that is listed the source reads it->second after list.erase(it).
pub data Deletion : Type 0 where
  fine : Sets → Option ℕ → Deletion
  undefined : Deletion

unfoldable pub del_found : Sets → Option ℕ → Deletion
del_found s none = fine s none
del_found s (some set) = undefined

unfoldable pub del : Text → Bool → Sets → Deletion
unfolding del_found
del name free s = del_found s (StdMap.find name s.list)

-- The sets of a list, in its order.
pub values : StdMap ℕ → List ℕ
values [] = []
values ((name, set) ∷ list) = set ∷ values list

unfoldable pub clear : Bool → Sets → Sets
unfolding values
clear free s = record s { list = []; freed = if free then values s.list ++ s.freed else s.freed }

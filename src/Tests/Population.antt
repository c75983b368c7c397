-- ===== src/Tests/Population.antt =====
-- The theorems on the lists of users at concrete inputs.
use topy.Prelude.{
  ℕ, ◌+◌, ◌%◌, ◌^◌, ◌≡◌, refl, Text, codes, text_eq, true, false, ◌&&◌, Option, none, some, List,
  [], ◌∷◌, ◌++◌, ℤ, pos, if◌then◌else◌, take, arith, ◌==◌,
}
use topy.Groups.{Groups, group_undef, group_unknown, get_id}
use topy.StdMap
use topy.StdMap.Laws.{IsOrdered}
use topy.WordsParser.{new_parser}
use topy.Filter.{Filter, new_filter}
use topy.Top.{sort}
use topy.Users.{
  User, Users, HashTable, FieldMethods, user_find, user_find_or_create, cleanup, group_count,
  outdated, del, group_del, selected,
}
use topy.Users.Lists.{IsStore}
use topy.Users.Store.{user_find_or_create-IsStore, user_find-user_find_or_create}
use topy.Users.Cleanup.{listed, cleanup_at, group_count-cleanup}
use topy.Users.Ungroup.{group_del_at}
use topy.Users.Ranking.{top, rank, shown}
use topy.Users.Best.{candidates, has_score, top-candidates, rank-candidates}

-- A table as a list of its entries, the newest first.
unfoldable pub lookup_entry : Text → List (Text × ℕ) → Option ℕ
lookup_entry k [] = none
lookup_entry k ((j, a) ∷ t) = if text_eq j k then some a else lookup_entry k t

abbrev pub entries : HashTable (List (Text × ℕ))
unfolding lookup_entry
entries = record {
  empty = [];
  lookup = lookup_entry;
  insert = λ k a t. (k, a) ∷ t;
  lookup_empty = λ k. refl;
  lookup_insert = λ k j a t. refl;
}

-- A field that is a number, updated at the time that it shows.
abbrev number : FieldMethods ℤ
number = record {
  created = λ i. pos 0;
  clear = λ x. pos 0;
  last_update = λ x. x;
  score = λ rule x. (x, x);
}

abbrev nobody : Users (List (Text × ℕ)) ℤ
nobody = record {
  hash_table = [];
  vector = [];
  vector_new_users = [];
  heap = λ a. record { id = []; group = 0; deleted = true; field = λ i. pos 0 };
  next = 0;
}

nobody-IsStore : IsStore entries number nobody
unfolding lookup_entry
nobody-IsStore = record {
  owned = λ id a e. absurd (cc e);
  found = λ a h. absurd (omega (arith, h));
}

user_find_or_create-IsStore_example :
    IsStore entries number (user_find_or_create entries number false (codes "ann") nobody).0
user_find_or_create-IsStore_example =
    user_find_or_create-IsStore entries number false (codes "ann") nobody nobody-IsStore

user_find-user_find_or_create_example :
    user_find entries (codes "ann") (user_find_or_create entries number true (codes "ann") nobody).0
    ≡ (if text_eq (codes "ann") (codes "ann")
        then some (user_find_or_create entries number true (codes "ann") nobody).1
        else user_find entries (codes "ann") nobody)
user_find-user_find_or_create_example =
    user_find-user_find_or_create entries number true (codes "ann") (codes "ann") nobody
      nobody-IsStore

-- User a of group a, last updated at a.
abbrev crowd : ℕ → User ℤ
crowd a = record { id = a ∷ []; group = a; deleted = false; field = λ i. pos a }

abbrev one_group : Groups
one_group = record { index_counter = 4; list = (codes "g", record { id = 3; mask = 0 }) ∷ [] }

abbrev anyone : Filter
anyone = new_filter (new_parser (λ c. 255) [])

cleanup_at_example : (cleanup number one_group anyone 0 (pos 4) crowd (3 ∷ 5 ∷ [])).0 3 ≡ (
    if listed 3 (3 ∷ 5 ∷ []) && outdated number one_group anyone 0 (pos 4) (crowd 3)
    then del number (crowd 3)
    else crowd 3)
cleanup_at_example = cleanup_at number one_group anyone 0 (pos 4) crowd (3 ∷ 5 ∷ []) 3

group_count-cleanup_example :
    (group_count number one_group anyone
          (cleanup number one_group anyone 0 (pos 4) crowd (3 ∷ 5 ∷ [])).0
          (3 ∷ 5 ∷ [])
        + (cleanup number one_group anyone 0 (pos 4) crowd (3 ∷ 5 ∷ [])).1)
      % 2 ^ 32
    ≡ (cleanup number one_group anyone 0 (pos 4) crowd (3 ∷ 5 ∷ [])).2 % 2 ^ 32
group_count-cleanup_example =
    group_count-cleanup number one_group anyone 0 (pos 4) crowd (3 ∷ 5 ∷ [])

abbrev two_lists : Users (List (Text × ℕ)) ℤ
two_lists = record {
  hash_table = [];
  vector = 3 ∷ [];
  vector_new_users = 5 ∷ [];
  heap = crowd;
  next = 9;
}

g_known : (get_id (codes "g") one_group == group_unknown) ≡ false
unfolding get_id StdMap.find
g_known = refl

one_group-IsOrdered : IsOrdered one_group.list
one_group-IsOrdered = (tt, tt)

group_del_at_example :
    ((group_del (codes "g") one_group two_lists).2 ≡ true)
    × (get_id (codes "h") (group_del (codes "g") one_group two_lists).0
        ≡ (if text_eq (codes "g") (codes "h") then group_unknown else get_id (codes "h") one_group))
    × ((group_del (codes "g") one_group two_lists).1.vector ≡ (3 ∷ []) ++ (5 ∷ []))
    × ((group_del (codes "g") one_group two_lists).1.heap 3 ≡ (
        if listed 3 ((3 ∷ []) ++ (5 ∷ [])) && (crowd 3).group == get_id (codes "g") one_group
        then record (crowd 3) { group = group_undef }
        else crowd 3))
group_del_at_example =
    group_del_at (codes "g") (codes "h") one_group two_lists 3 one_group-IsOrdered g_known

top-candidates_example :
    (top number one_group anyone 0 0 true (pos 0) 1 crowd (3 ∷ 5 ∷ [])).1
    ≡ shown number one_group anyone 0 0 true (
        take 1 (
          sort (
            candidates number one_group anyone 0 0 true
              (selected number one_group anyone)
              crowd
              (3 ∷ 5 ∷ []))))
top-candidates_example =
    top-candidates number one_group anyone 0 0 true (pos 0) 1 crowd (3 ∷ 5 ∷ []) (omega arith)
      (refl, (refl, tt))

rank-candidates_example :
    (rank number one_group anyone 0 0 false crowd (3 ∷ 5 ∷ [])).1
    ≡ shown number one_group anyone 0 0 false (
        sort (
          candidates number one_group anyone 0 0 false
            (has_score number one_group anyone 0 0 false)
            crowd
            (3 ∷ 5 ∷ [])))
rank-candidates_example =
    rank-candidates number one_group anyone 0 0 false crowd (3 ∷ 5 ∷ []) (refl, (refl, tt))

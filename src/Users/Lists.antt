-- ===== src/Users/Lists.antt =====
-- The hash table and the two lists of Users of src/users.cc, and the users in them.
use topy.Prelude.{
  ℕ, suc, ◌+◌, ◌<◌, ◌≡◌, refl, sym, inl, inr, Bool, true, false, List, [], ◌∷◌, ◌++◌, ◌==◌,
  if◌then◌else◌, arith, Bool-cases, ==_iff, Text, some, append_assoc, append-nil,
}
use topy.Users.{Users, HashTable, FieldMethods, user_add, vector_update}

-- How often the address is in the list.
abbrev pub occurrences : ℕ → List ℕ → ℕ
occurrences a [] = 0
occurrences a (b ∷ list) = if a == b then suc (occurrences a list) else occurrences a list

pub occurrences-append :
    (a : ℕ) (l m : List ℕ) → occurrences a (l ++ m) ≡ occurrences a l + occurrences a m
occurrences-append a [] m = omega arith
occurrences-append a (b ∷ l) m = ground (arith, occurrences-append a l m)

module _ {T F : Type 0} (table : HashTable T) (methods : FieldMethods F) where
  abbrev pub all_users : Users T F → List ℕ
  all_users us = us.vector ++ us.vector_new_users

  -- A user that the table finds by an id has that id, is in the lists once, and was allocated; and a user
  -- of the lists is found by its id.
  pub record IsStore (us : Users T F) : Type 0 where
    pub owned :
        (id : Text) (a : ℕ)
        → table.lookup id us.hash_table ≡ some a
        → ((us.heap a).id ≡ id) × (occurrences a (all_users us) ≡ 1) × (a < us.next)
    pub found :
        (a : ℕ)
        → 0 < occurrences a (all_users us)
        → table.lookup (us.heap a).id us.hash_table ≡ some a

  -- vector_update only moves users.
  all_users-update : (us : Users T F) → all_users (vector_update us) ≡ all_users us
  unfolding vector_update
  all_users-update us = append-nil (us.vector ++ us.vector_new_users)

  pub all_users-add :
      (free : Bool) (a : ℕ) (us : Users T F)
      → all_users (user_add table free a us) ≡ all_users us ++ (a ∷ [])
  unfolding user_add vector_update
  all_users-add true a us = append-nil ((us.vector ++ us.vector_new_users) ++ (a ∷ []))
  all_users-add false a us = sym (append_assoc us.vector us.vector_new_users (a ∷ []))

  pub heap-add : (free : Bool) (a : ℕ) (us : Users T F) → (user_add table free a us).heap ≡ us.heap
  unfolding user_add vector_update
  heap-add true a us = refl
  heap-add false a us = refl

  pub next-add : (free : Bool) (a : ℕ) (us : Users T F) → (user_add table free a us).next ≡ us.next
  unfolding user_add vector_update
  next-add true a us = refl
  next-add false a us = refl

  pub hash_table-add :
      (free : Bool) (a : ℕ) (us : Users T F)
      → (user_add table free a us).hash_table ≡ table.insert (us.heap a).id a us.hash_table
  unfolding user_add vector_update
  hash_table-add true a us = refl
  hash_table-add false a us = refl

  -- A user that was listed is not the next address.
  pub listed-next : (us : Users T F) → IsStore us → occurrences us.next (all_users us) ≡ 0
  listed-next us h = elim (Bool-cases (occurrences us.next (all_users us) == 0)) [
    | inl zero_times ↦ (==_iff _ 0).0 zero_times
    | inr some_times ↦
        let there = h.found us.next (ground (arith, some_times)) in
        absurd (omega (arith, (h.owned _ us.next there).2))
  ]

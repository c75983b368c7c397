-- ===== src/Users/Store.antt =====
-- Users::user_find_or_create and Users::user_find of src/users.cc.
use topy.Prelude.{
  ℕ, ◌+◌, ◌<◌, ◌≡◌, refl, sym, ap, subst, ◌∙◌, inl, inr, Bool, false, [], ◌∷◌, ◌==◌, if◌then◌else◌,
  arith, Bool-cases, ==_iff, ==_refl, Text, text_eq, text_eq_iff, text_eq_refl, none, some,
  Option-cases,
}
use topy.Users.{
  User, Users, HashTable, FieldMethods, store, new_user, undel, user_add, user_find,
  user_find_or_create, allocate,
}
use topy.Users.Lists.{
  occurrences, occurrences-append, all_users, IsStore, all_users-add, heap-add, next-add,
  hash_table-add, listed-next,
}

module _ {T F : Type 0} (table : HashTable T) (methods : FieldMethods F) where
  -- A new user under an id that the table does not know.
  module _ (free : Bool) (id : Text) (us : Users T F) (h : IsStore table methods us)
      (new : table.lookup id us.hash_table ≡ none) where
    abbrev created : Users T F
    created = user_add table free us.next (allocate methods id us)

    heap-created :
        (a : ℕ) → created.heap a ≡ (if a == us.next then new_user methods id else us.heap a)
    unfolding allocate
    heap-created a =
        ap (λ (heap : ℕ → User F). heap a)
          (heap-add table methods free us.next (allocate methods id us))

    id-allocate : ((allocate methods id us).heap us.next).id ≡ id
    unfolding allocate new_user
    id-allocate = ground (arith, ==_refl us.next)

    lookup-created :
        (j : Text)
        → table.lookup j created.hash_table
          ≡ (if text_eq id j then some us.next else table.lookup j us.hash_table)
    unfolding allocate
    lookup-created j =
        ap (table.lookup j) (hash_table-add table methods free us.next (allocate methods id us))
        ∙ ap (λ (k : Text). table.lookup j (table.insert k us.next us.hash_table)) id-allocate
        ∙ table.lookup_insert id j us.next us.hash_table

    occurrences-created :
        (a : ℕ)
        → occurrences a (all_users table methods created)
          ≡ occurrences a (all_users table methods us) + (if a == us.next then 1 else 0)
    unfolding allocate
    occurrences-created a =
        ap (occurrences a) (all_users-add table methods free us.next (allocate methods id us))
        ∙ occurrences-append a (all_users table methods us) (us.next ∷ [])

    next-created : created.next ≡ us.next + 1
    unfolding allocate
    next-created = next-add table methods free us.next (allocate methods id us)

    created-IsStore : IsStore table methods created
    unfolding new_user
    created-IsStore = record { owned = owns; found = finds }
      where
        owns :
            (j : Text) (a : ℕ)
            → table.lookup j created.hash_table ≡ some a
            → ((created.heap a).id ≡ j)
              × (occurrences a (all_users table methods created) ≡ 1)
              × (a < created.next)
        owns j a e = elim (Bool-cases (text_eq id j)) [
          | inl same ↦
              let at : us.next ≡ a = cc (
                lookup-created j,
                e,
                ap (λ (b : Bool). if b then some us.next else table.lookup j us.hash_table) same,
              ) in
              subst
                (λ b.
                  ((created.heap b).id ≡ j)
                  × (occurrences b (all_users table methods created) ≡ 1)
                  × (b < created.next))
                at
                (
                  ap (λ (u : User F). u.id) (heap-created us.next)
                      ∙ ground (arith, ==_refl us.next)
                      ∙ (text_eq_iff id j).0 same,
                  ground (
                    arith,
                    occurrences-created us.next,
                    listed-next table methods us h,
                    ==_refl us.next,
                  ),
                  omega (arith, next-created),
                )
          | inr other_id ↦
              let before : table.lookup j us.hash_table ≡ some a = cc (
                lookup-created j,
                e,
                ap (λ (b : Bool). if b then some us.next else table.lookup j us.hash_table)
                    other_id,
              ) in
              let old = h.owned j a before in
              let apart : (a == us.next) ≡ false = ground (arith, old.2) in
              (
                ap (λ (u : User F). u.id) (heap-created a) ∙ ground (arith, apart) ∙ old.0,
                ground (arith, occurrences-created a, old.1, apart),
                omega (arith, next-created, old.2),
              )
        ]

        different :
            (k : Text) (a : ℕ) → table.lookup k us.hash_table ≡ some a → text_eq id k ≡ false
        different k a there = elim (Bool-cases (text_eq id k)) [
          | inl same ↦
              let e : table.lookup id us.hash_table ≡ some a =
                ap (λ (i : Text). table.lookup i us.hash_table) ((text_eq_iff id k).0 same)
                ∙ there in
              absurd (cc (new, e))
          | inr other_id ↦ other_id
        ]

        finds :
            (a : ℕ)
            → 0 < occurrences a (all_users table methods created)
            → table.lookup (created.heap a).id created.hash_table ≡ some a
        finds a e = elim (Bool-cases (a == us.next)) [
          | inl here ↦
              let at : us.next ≡ a = sym ((==_iff a us.next).0 here) in
              let named : (created.heap a).id ≡ id =
                ap (λ (u : User F). u.id) (heap-created a) ∙ ground (arith, here) in
              ap (λ (k : Text). table.lookup k created.hash_table) named
              ∙ lookup-created id
              ∙ ap (λ (b : Bool). if b then some us.next else table.lookup id us.hash_table)
                  (text_eq_refl id)
              ∙ ap some at
          | inr apart ↦
              let old = h.found a (ground (arith, e, occurrences-created a, apart)) in
              let named : (created.heap a).id ≡ (us.heap a).id =
                ap (λ (u : User F). u.id) (heap-created a) ∙ ground (arith, apart) in
              let other_id : text_eq id (us.heap a).id ≡ false = different (us.heap a).id a old in
              ap (λ (k : Text). table.lookup k created.hash_table) named
              ∙ lookup-created (us.heap a).id
              ∙ ap
                  (λ (b : Bool).
                    if b then some us.next else table.lookup (us.heap a).id us.hash_table)
                  other_id
              ∙ old
        ]

    -- Who is found afterwards.
    find-created :
        (j : Text)
        → user_find table j created ≡ (if text_eq id j then some us.next else user_find table j us)
    unfolding user_find new_user
    find-created j = elim (Bool-cases (text_eq id j)) [
      | inl same ↦
          let fresh : (created.heap us.next).deleted ≡ false =
            ap (λ (u : User F). u.deleted) (heap-created us.next)
            ∙ ground (arith, ==_refl us.next) in
          let there : table.lookup j created.hash_table ≡ some us.next =
            lookup-created j ∙ ground (arith, same) in
          rw (same, there, user_find, fresh)
      | inr other_id ↦ elim (Option-cases (table.lookup j us.hash_table)) [
        | inl nobody ↦
            let there : table.lookup j created.hash_table ≡ none =
              lookup-created j ∙ rw (other_id, nobody) in
            rw (other_id, there, user_find, nobody)
        | inr (b, e) ↦
            let apart : (b == us.next) ≡ false = ground (arith, (h.owned j b e).2) in
            let kept : (created.heap b).deleted ≡ (us.heap b).deleted =
              ap (λ (u : User F). u.deleted) (heap-created b) ∙ ground (arith, apart) in
            let there : table.lookup j created.hash_table ≡ some b =
              lookup-created j ∙ rw (other_id, e) in
            rw (other_id, there, user_find, kept, e)
      ]
    ]

  -- A deleted user that comes back.
  module _ (id : Text) (a : ℕ) (us : Users T F) (h : IsStore table methods us)
      (there : table.lookup id us.hash_table ≡ some a) where
    abbrev revived : Users T F
    revived = record us { heap = store us.heap a (undel methods (us.heap a)) }

    id-revived : (b : ℕ) → (revived.heap b).id ≡ (us.heap b).id
    unfolding undel
    id-revived b = elim (Bool-cases (b == a)) [
      | inl here ↦ ground (arith, here, ap (λ (c : ℕ). (us.heap c).id) ((==_iff b a).0 here))
      | inr apart ↦ ground (arith, apart)
    ]

    revived-IsStore : IsStore table methods revived
    revived-IsStore = record {
      owned = λ j b e. (id-revived b ∙ (h.owned j b e).0, (h.owned j b e).1, (h.owned j b e).2);
      found = λ b e. ap (λ (k : Text). table.lookup k us.hash_table) (id-revived b) ∙ h.found b e;
    }

    find-revived :
        (j : Text)
        → user_find table j revived ≡ (if text_eq id j then some a else user_find table j us)
    unfolding user_find undel
    find-revived j = elim (Bool-cases (text_eq id j)) [
      | inl same ↦
          let here : table.lookup j us.hash_table ≡ some a =
            ap (λ (k : Text). table.lookup k us.hash_table) (sym ((text_eq_iff id j).0 same))
            ∙ there in
          rw (same, here, user_find) (ground (arith, ==_refl a))
      | inr other_id ↦ elim (Option-cases (table.lookup j us.hash_table)) [
        | inl nobody ↦ rw (other_id, nobody, user_find)
        | inr (b, e) ↦
            let apart : (b == a) ≡ false = distinct j b other_id e in
            let kept : (revived.heap b).deleted ≡ (us.heap b).deleted = ground (arith, apart) in
            rw (other_id, e, user_find, kept)
      ]
    ]
      where
        distinct :
            (j : Text) (b : ℕ)
            → text_eq id j ≡ false
            → table.lookup j us.hash_table ≡ some b
            → (b == a) ≡ false
        distinct j b other_id e = elim (Bool-cases (b == a)) [
          | inl same ↦
              let ids : id ≡ j =
                sym (h.owned id a there).0
                ∙ ap (λ (c : ℕ). (us.heap c).id) (sym ((==_iff b a).0 same))
                ∙ (h.owned j b e).0 in
              absurd (cc (other_id, text_eq_refl id, ap (text_eq id) ids))
          | inr apart ↦ apart
        ]

  find_live :
      (id j : Text) (a : ℕ) (us : Users T F)
      → table.lookup id us.hash_table ≡ some a
      → (us.heap a).deleted ≡ false
      → user_find table j us ≡ (if text_eq id j then some a else user_find table j us)
  unfolding user_find
  find_live id j a us e live = elim (Bool-cases (text_eq id j)) [
    | inl same ↦
        let here : table.lookup j us.hash_table ≡ some a =
          ap (λ (k : Text). table.lookup k us.hash_table) (sym ((text_eq_iff id j).0 same)) ∙ e in
        rw (same, here, user_find, live)
    | inr other_id ↦ rw other_id refl
  ]

  -- User_find_or_create keeps the table and the two lists holding the same users, each once and by
  -- its id, whatever trylock answers.
  pub user_find_or_create-IsStore :
      (free : Bool) (id : Text) (us : Users T F)
      → IsStore table methods us
      → IsStore table methods (user_find_or_create table methods free id us).0
  unfolding user_find_or_create
  user_find_or_create-IsStore free id us h = elim (Option-cases (table.lookup id us.hash_table)) [
    | inl nobody ↦ rw (nobody, user_find_or_create) (created-IsStore free id us h nobody)
    | inr (a, e) ↦ elim (Bool-cases ((us.heap a).deleted)) [
      | inl deleted ↦ rw (e, user_find_or_create, deleted) (revived-IsStore id a us h e)
      | inr live ↦ rw (e, user_find_or_create, live) h
    ]
  ]

  -- In a state where the table and the two lists hold the same users, each once and by its id,
  -- user_find after user_find_or_create finds under its id the user that was returned, deleted
  -- before or not, and under every other id what it found before, whatever trylock answered.
  pub user_find-user_find_or_create :
      (free : Bool) (id j : Text) (us : Users T F)
      → IsStore table methods us
      → user_find table j (user_find_or_create table methods free id us).0 ≡ (
          if text_eq id j
          then some (user_find_or_create table methods free id us).1
          else user_find table j us)
  unfolding user_find_or_create
  user_find-user_find_or_create free id j us h =
      elim (Option-cases (table.lookup id us.hash_table)) [
        | inl nobody ↦ rw (nobody, user_find_or_create) (find-created free id us h nobody j)
        | inr (a, e) ↦ elim (Bool-cases ((us.heap a).deleted)) [
          | inl deleted ↦ rw (e, user_find_or_create, deleted) (find-revived id a us h e j)
          | inr live ↦ rw (e, user_find_or_create, live) (find_live id j a us e live)
        ]
      ]

-- ===== src/Users.antt =====
-- src/users.cc and the state of src/user.cc: the users of the server, in a build with ids that are
-- strings. A User * is an address, and the heap holds the users by address. Commands run one after the
-- other; what a trylock answers is an argument.
pub mod Lists
pub mod Store
pub mod Cleanup
pub mod Ungroup
pub mod Ranking
pub mod Best
pub mod Dump
use topy.Prelude.{
  ℕ, zero, suc, ◌+◌, ◌%◌, ◌^◌, Text, text_eq, Bool, true, false, not, ◌&&◌, ◌||◌, Option, none,
  some, List, [], ◌∷◌, ◌++◌, ◌≡◌, ℤ, pos, negsuc, negate, ltb_ℤ, ltb, ◌==◌, if◌then◌else◌,
}
use topy.Filter.{Filter, passes}
use topy.Groups
use topy.Groups.{Groups, group_undef, group_unknown}

-- The hash table of GLib, which src/ghash++.tcc wraps: its operations and what is documented of them.
pub record HashTable (T : Type 0) : Type 0 where
  pub empty : T
  pub lookup : Text → T → Option ℕ
  pub insert : Text → ℕ → T → T
  pub lookup_empty : (k : Text) → lookup k empty ≡ none
  pub lookup_insert :
      (k j : Text) (a : ℕ) (t : T)
      → lookup j (insert k a t) ≡ (if text_eq k j then some a else lookup j t)

-- What the lists of users ask of a field, whatever its type; score brings the field up to date.
pub record FieldMethods (F : Type 0) : Type 0 where
  pub created : ℕ → F
  pub clear : F → F
  pub last_update : F → ℤ
  pub score : ℕ → F → ℤ × F

pub record User (F : Type 0) : Type 0 where
  pub id : Text
  pub group : ℕ
  pub deleted : Bool
  pub field : ℕ → F

pub record Users (T F : Type 0) : Type 0 where
  pub hash_table : T
  pub vector : List ℕ
  pub vector_new_users : List ℕ
  pub heap : ℕ → User F
  pub next : ℕ

module _ {F : Type 0} (methods : FieldMethods F) where
  -- User::User and User::undel: the fields are new.
  unfoldable pub new_user : Text → User F
  new_user id = record { id = id; group = group_undef; deleted = false; field = methods.created }

  -- The freed fields keep what they held; nothing reads them before undel.
  pub del : User F → User F
  del u = record u { deleted = true }

  pub undel : User F → User F
  undel u = record u { group = group_undef; deleted = false; field = methods.created }

  -- User::clear
  pub clear_user : User F → User F
  clear_user u = record u {
    group = group_undef;
    deleted = false;
    field = λ i. methods.clear (u.field i);
  }

-- User::set_group
pub set_group : {F : Type 0} → Text → Groups → User F → User F × Bool
set_group name gs u =
    let filter = Groups.filter_parse name gs in
    if text_eq name []
    then (record u { group = group_undef }, true)
    else if filter.id == group_unknown
    then (u, false)
    else (record u { group = filter.id }, true)

-- *a = u
abbrev pub store : {F : Type 0} → (ℕ → User F) → ℕ → User F → ℕ → User F
store heap a u b = if b == a then u else heap b

module _ {T F : Type 0} where
  unfoldable pub vector_update : Users T F → Users T F
  vector_update us = record us { vector = us.vector ++ us.vector_new_users; vector_new_users = [] }

  -- user_add, by whether trylock gets the vector.
  unfoldable pub user_add : HashTable T → Bool → ℕ → Users T F → Users T F
  unfolding vector_update
  user_add table free a us =
      let added = record us { hash_table = table.insert (us.heap a).id a us.hash_table } in
      if free
      then (let updated = vector_update added in
          record updated { vector = updated.vector ++ a ∷ [] })
      else record added { vector_new_users = added.vector_new_users ++ a ∷ [] }

  unfoldable pub user_find : HashTable T → Text → Users T F → Option ℕ
  user_find table id us = elim (table.lookup id us.hash_table) [
    | none ↦ none
    | some a ↦ if (us.heap a).deleted then none else some a
  ]

  -- new User(id) at the next address.
  unfoldable pub allocate : FieldMethods F → Text → Users T F → Users T F
  unfolding new_user
  allocate methods id us = record us {
    heap = store us.heap us.next (new_user methods id);
    next = us.next + 1;
  }

  unfoldable pub user_find_or_create :
      HashTable T → FieldMethods F → Bool → Text → Users T F → Users T F × ℕ
  unfolding user_add allocate undel
  user_find_or_create table methods free id us = elim (table.lookup id us.hash_table) [
    | none ↦ (user_add table free us.next (allocate methods id us), us.next)
    | some a ↦
        if (us.heap a).deleted
        then (record us { heap = store us.heap a (undel methods (us.heap a)) }, a)
        else (us, a)
  ]

module _ {F : Type 0} (methods : FieldMethods F) (gs : Groups) (filter : Filter) where
  -- A user that is there and passes the filter.
  unfoldable pub selected : User F → Bool
  selected u = not u.deleted && passes gs u.id u.group filter

  unfoldable pub group_count : (ℕ → User F) → List ℕ → ℕ
  unfolding selected
  group_count heap [] = 0
  group_count heap (a ∷ list) =
      let rest = group_count heap list in if selected (heap a) then (rest + 1) % 2 ^ 32 else rest

  -- The result and total: of `int`, since a list is shorter than 2^31.
  unfoldable pub count_active : ℕ → ℤ → (ℕ → User F) → List ℕ → ℕ × ℕ
  unfolding selected
  count_active field_id limit heap [] = (0, 0)
  count_active field_id limit heap (a ∷ list) =
      let (result, total) = count_active field_id limit heap list in
      if selected (heap a)
      then (if ltb_ℤ limit (methods.last_update ((heap a).field field_id))
          then (result + 1, total + 1)
          else (result, total + 1))
      else (result, total)

  -- Which users cleanup deletes.
  unfoldable pub outdated : ℕ → ℤ → User F → Bool
  unfolding selected
  outdated field_id limit u = selected u && ltb_ℤ (methods.last_update (u.field field_id)) limit

  -- The heap, the result and total: of `int`, since a list is shorter than 2^31.
  unfoldable pub cleanup : ℕ → ℤ → (ℕ → User F) → List ℕ → (ℕ → User F) × ℕ × ℕ
  unfolding selected del outdated
  cleanup field_id limit heap [] = (heap, 0, 0)
  cleanup field_id limit heap (a ∷ list) =
      let kept = cleanup field_id limit heap list in
      let deleting = cleanup field_id limit (store heap a (del methods (heap a))) list in
      if outdated field_id limit (heap a)
      then (deleting.0, deleting.1 + 1, deleting.2 + 1)
      else (kept.0, kept.1, if selected (heap a) then kept.2 + 1 else kept.2)

  -- clear(filter, field_id)
  unfoldable pub clear_field : ℕ → (ℕ → User F) → List ℕ → ℕ → User F
  unfolding selected
  clear_field field_id heap [] = heap
  clear_field field_id heap (a ∷ list) =
      let u = heap a in
      let cleared = record u {
        field = λ i. if i == field_id then methods.clear (u.field i) else u.field i;
      } in
      let rest = clear_field field_id heap list in
      let clearing = clear_field field_id (store heap a cleared) list in
      if selected u then clearing else rest

  unfoldable pub select : (ℕ → User F) → List ℕ → List ℕ
  unfolding selected
  select heap [] = []
  select heap (a ∷ list) =
      let rest = select heap list in if selected (heap a) then a ∷ rest else rest

module _ {F : Type 0} where
  unfoldable pub select_all : (ℕ → User F) → List ℕ → List ℕ
  select_all heap [] = []
  select_all heap (a ∷ list) =
      let rest = select_all heap list in if (heap a).deleted then rest else a ∷ rest

  -- The loop of group_del.
  unfoldable pub ungroup : ℕ → (ℕ → User F) → List ℕ → ℕ → User F
  ungroup group heap [] = heap
  ungroup group heap (a ∷ list) =
      let rest = ungroup group heap list in
      let leaving = ungroup group (store heap a (record (heap a) { group = group_undef })) list in
      if (heap a).group == group then leaving else rest

  -- The loop of groups_clear.
  unfoldable pub ungroup_all : (ℕ → User F) → List ℕ → ℕ → User F
  ungroup_all heap [] = heap
  ungroup_all heap (a ∷ list) =
      ungroup_all (store heap a (record (heap a) { group = group_undef })) list

module _ {T F : Type 0} where
  -- group_del: the registry of groups and the users, and whether the group was known.
  unfoldable pub group_del : Text → Groups → Users T F → Groups × Users T F × Bool
  unfolding vector_update ungroup
  group_del name gs us =
      let (rest, group) = Groups.del name gs in
      if group == group_unknown
      then (rest, us, false)
      else (let updated = vector_update us in
          (rest, record updated { heap = ungroup group updated.heap updated.vector }, true))

  unfoldable pub groups_clear : Groups → Users T F → Groups × Users T F
  unfolding vector_update ungroup_all
  groups_clear gs us =
      let updated = vector_update us in
      (Groups.clear gs, record updated { heap = ungroup_all updated.heap updated.vector })

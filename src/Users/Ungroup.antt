-- ===== src/Users/Ungroup.antt =====
-- Users::group_del of src/users.cc.
use topy.Prelude.{
  ℕ, ◌≡◌, refl, ap, ◌∙◌, inl, inr, Bool, true, false, ◌&&◌, ◌||◌, List, [], ◌∷◌, ◌++◌, ◌==◌,
  if◌then◌else◌, arith, Bool-cases, ==_iff, Text, text_eq,
}
use topy.Groups.{Groups, group_undef, group_unknown, get_id}
use topy.Groups.Ids.{get_id-del}
use topy.StdMap.Laws.{IsOrdered}
use topy.Users.{User, Users, store, ungroup, group_del, vector_update}
use topy.Users.Cleanup.{listed}

module _ {F : Type 0} (group : ℕ) where
  abbrev leave : User F → User F
  leave u = record u { group = group_undef }

  -- What becomes of user a, by whether the list has it.
  abbrev fate : (ℕ → User F) → Bool → ℕ → User F
  fate heap there a = if there && (heap a).group == group then leave (heap a) else heap a

  fate-store :
      (heap : ℕ → User F) (x a : ℕ) (there : Bool)
      → ((heap x).group == group) ≡ true
      → fate (store heap x (leave (heap x))) there a ≡ fate heap (a == x || there) a
  fate-store heap x a there member = elim (Bool-cases (a == x)) [
    | inl here ↦
        let same : a ≡ x = (==_iff a x).0 here in
        let was : ((heap a).group == group) ≡ true =
          ap (λ (b : ℕ). (heap b).group == group) same ∙ member in
        ground (arith, here, was, ap (λ (b : ℕ). leave (heap b)) same)
    | inr elsewhere ↦ ground (arith, elsewhere)
  ]

  fate_skipped :
      (heap : ℕ → User F) (x a : ℕ) (there : Bool)
      → ((heap x).group == group) ≡ false
      → fate heap there a ≡ fate heap (a == x || there) a
  fate_skipped heap x a there stranger = elim (Bool-cases (a == x)) [
    | inl here ↦
        let kept : ((heap a).group == group) ≡ false =
          ap (λ (b : ℕ). (heap b).group == group) ((==_iff a x).0 here) ∙ stranger in
        ground (arith, kept)
    | inr elsewhere ↦ ground (arith, elsewhere)
  ]

  -- The loop puts the members of the group that the list has into no group.
  pub ungroup_at :
      (heap : ℕ → User F) (list : List ℕ) (a : ℕ)
      → ungroup group heap list a ≡ (
          if listed a list && (heap a).group == group
          then record (heap a) { group = group_undef }
          else heap a)
  unfolding ungroup
  ungroup_at heap [] a = refl
  ungroup_at heap (x ∷ list) a = elim (Bool-cases ((heap x).group == group)) [
    | inl member ↦
        rw (member, ungroup)
          (ungroup_at (store heap x (leave (heap x))) list a
            ∙ fate-store heap x a (listed a list) member)
    | inr stranger ↦
        rw (stranger, ungroup)
          (ungroup_at heap list a ∙ fate_skipped heap x a (listed a list) stranger)
  ]

-- group_del of a known name, on an ordered registry, answers true, makes the name unknown and keeps
-- the ids of the other names, moves the new users into the vector, and puts exactly the listed
-- users of that group into no group.
pub group_del_at :
    {T F : Type 0}
    → (name other : Text) (gs : Groups) (us : Users T F) (a : ℕ) → IsOrdered gs.list
    → (get_id name gs == group_unknown) ≡ false
    → let r = group_del name gs us in
      (r.2 ≡ true)
      × (get_id other r.0 ≡ (if text_eq name other then group_unknown else get_id other gs))
      × (r.1.vector ≡ us.vector ++ us.vector_new_users)
      × (r.1.heap a ≡ (
          if listed a (us.vector ++ us.vector_new_users) && (us.heap a).group == get_id name gs
          then record (us.heap a) { group = group_undef }
          else us.heap a))
unfolding group_del vector_update
group_del_at name other gs us a ordered known =
    let registry = get_id-del name other gs ordered in
    rw (registry.0, group_del, known)
      (
        refl,
        registry.1,
        refl,
        ungroup_at (get_id name gs) us.heap (us.vector ++ us.vector_new_users) a,
      )

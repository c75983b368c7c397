-- ===== src/Users/Cleanup.antt =====
-- The loops of VectorUsers over the users in src/users.cc, user by user.
use topy.Prelude.{
  ℕ, ◌+◌, ◌%◌, ◌^◌, ◌≡◌, refl, sym, ap, subst, ◌∙◌, inl, inr, Bool, true, false, ◌&&◌, ◌||◌, List,
  [], ◌∷◌, ℤ, ◌==◌, if◌then◌else◌, arith, Bool-cases, ==_iff, ==_refl,
}
use topy.Filter.{Filter}
use topy.Groups.{Groups}
use topy.Users.{User, FieldMethods, store, del, selected, outdated, cleanup, group_count}

-- The address is in the list.
abbrev pub listed : ℕ → List ℕ → Bool
listed a [] = false
listed a (b ∷ list) = a == b || listed a list

module _ {F : Type 0} (methods : FieldMethods F) (gs : Groups) (filter : Filter) (field_id : ℕ)
    (limit : ℤ) where
  outdated-del : (u : User F) → outdated methods gs filter field_id limit (del methods u) ≡ false
  unfolding outdated selected del
  outdated-del u = refl

  abbrev run : (ℕ → User F) → List ℕ → (ℕ → User F) × ℕ × ℕ
  run = cleanup methods gs filter field_id limit

  abbrev is_old : User F → Bool
  is_old = outdated methods gs filter field_id limit

  cleanup_old :
      (heap : ℕ → User F) (x : ℕ) (list : List ℕ)
      → is_old (heap x) ≡ true
      → let c = run (store heap x (del methods (heap x))) list in
        run heap (x ∷ list) ≡ (c.0, c.1 + 1, c.2 + 1)
  unfolding cleanup
  cleanup_old heap x list old = rw (old, cleanup)

  cleanup_new :
      (heap : ℕ → User F) (x : ℕ) (list : List ℕ)
      → is_old (heap x) ≡ false
      → let c = run heap list in
        run heap (x ∷ list)
        ≡ (c.0, c.1, if selected methods gs filter (heap x) then c.2 + 1 else c.2)
  unfolding cleanup
  cleanup_new heap x list new = rw (new, cleanup)

  -- What becomes of user a, by whether the list has it.
  abbrev fate : (ℕ → User F) → Bool → ℕ → User F
  fate heap there a = if there && is_old (heap a) then del methods (heap a) else heap a

  fate-store :
      (heap : ℕ → User F) (x a : ℕ) (there : Bool)
      → is_old (heap x) ≡ true
      → fate (store heap x (del methods (heap x))) there a ≡ fate heap (a == x || there) a
  fate-store heap x a there old = elim (Bool-cases (a == x)) [
    | inl here ↦
        let same : a ≡ x = (==_iff a x).0 here in
        let gone = outdated-del (heap x) in
        let was : is_old (heap a) ≡ true = ap (λ (b : ℕ). is_old (heap b)) same ∙ old in
        ground (arith, here, gone, was, ap (λ (b : ℕ). del methods (heap b)) same)
    | inr elsewhere ↦ ground (arith, elsewhere)
  ]

  fate_skipped :
      (heap : ℕ → User F) (x a : ℕ) (there : Bool)
      → is_old (heap x) ≡ false
      → fate heap there a ≡ fate heap (a == x || there) a
  fate_skipped heap x a there new = elim (Bool-cases (a == x)) [
    | inl here ↦
        let kept : is_old (heap a) ≡ false =
          ap (λ (b : ℕ). is_old (heap b)) ((==_iff a x).0 here) ∙ new in
        ground (arith, kept)
    | inr elsewhere ↦ ground (arith, elsewhere)
  ]

  -- cleanup deletes exactly the users of the list that are there, pass the filter and were last
  -- updated before the limit, and leaves every other user as it was.
  pub cleanup_at :
      (heap : ℕ → User F) (list : List ℕ) (a : ℕ)
      → (cleanup methods gs filter field_id limit heap list).0 a ≡ (
          if listed a list && outdated methods gs filter field_id limit (heap a)
          then del methods (heap a)
          else heap a)
  unfolding cleanup
  cleanup_at heap [] a = refl
  cleanup_at heap (x ∷ list) a = elim (Bool-cases (is_old (heap x))) [
    | inl old ↦
        ap (λ (c : (ℕ → User F) × ℕ × ℕ). c.0 a) (cleanup_old heap x list old)
        ∙ cleanup_at (store heap x (del methods (heap x))) list a
        ∙ fate-store heap x a (listed a list) old
    | inr new ↦
        ap (λ (c : (ℕ → User F) × ℕ × ℕ). c.0 a) (cleanup_new heap x list new)
        ∙ cleanup_at heap list a
        ∙ fate_skipped heap x a (listed a list) new
  ]

  selected-del : (u : User F) → selected methods gs filter (del methods u) ≡ false
  unfolding selected del
  selected-del u = refl

  outdated-selected :
      (u : User F)
      → outdated methods gs filter field_id limit u ≡ true
      → selected methods gs filter u ≡ true
  unfolding outdated
  outdated-selected u h = ground (arith, h)

  -- Whether the first user of the list is still there in the end.
  first_left :
      (heap : ℕ → User F) (x : ℕ) (list : List ℕ)
      → selected methods gs filter ((run heap (x ∷ list)).0 x)
        ≡ (if is_old (heap x) then false else selected methods gs filter (heap x))
  first_left heap x list =
      ap (selected methods gs filter) (cleanup_at heap (x ∷ list) x)
      ∙ ground (arith, selected-del (heap x), ==_refl x)

  group_count-cons :
      (heap : ℕ → User F) (x : ℕ) (list : List ℕ)
      → group_count methods gs filter heap (x ∷ list) ≡ (
          if selected methods gs filter (heap x)
          then (group_count methods gs filter heap list + 1) % 2 ^ 32
          else group_count methods gs filter heap list)
  unfolding group_count
  group_count-cons heap x list = refl

  -- The number of users that are there and pass the filter after cleanup, and the number that it
  -- deleted, add up to the number that it counted, modulo 2^32.
  pub group_count-cleanup :
      (heap : ℕ → User F) (list : List ℕ)
      → let c = cleanup methods gs filter field_id limit heap list in
        (group_count methods gs filter c.0 list + c.1) % 2 ^ 32 ≡ c.2 % 2 ^ 32
  unfolding cleanup group_count
  group_count-cleanup heap [] = refl
  group_count-cleanup heap (x ∷ list) = elim (Bool-cases (is_old (heap x))) [
    | inl old ↦
        subst Balanced (sym (cleanup_old heap x list old))
          (deleted old (group_count-cleanup (store heap x (del methods (heap x))) list))
    | inr new ↦
        subst Balanced (sym (cleanup_new heap x list new))
          (kept new (group_count-cleanup heap list))
  ]
    where
      Balanced : (ℕ → User F) × ℕ × ℕ → Type 0
      Balanced c = (group_count methods gs filter c.0 (x ∷ list) + c.1) % 2 ^ 32 ≡ c.2 % 2 ^ 32

      deleted :
          is_old (heap x) ≡ true
          → let c = run (store heap x (del methods (heap x))) list in
            (group_count methods gs filter c.0 list + c.1) % 2 ^ 32 ≡ c.2 % 2 ^ 32
            → Balanced (c.0, c.1 + 1, c.2 + 1)
      deleted old h =
          let c = run (store heap x (del methods (heap x))) list in
          let gone : selected methods gs filter (c.0 x) ≡ false =
            ap (λ (d : (ℕ → User F) × ℕ × ℕ). selected methods gs filter (d.0 x))
              (sym (cleanup_old heap x list old))
            ∙ first_left heap x list
            ∙ ground (arith, old) in
          ground (arith, gone, h)

      kept :
          is_old (heap x) ≡ false
          → let c = run heap list in
            (group_count methods gs filter c.0 list + c.1) % 2 ^ 32 ≡ c.2 % 2 ^ 32
            → Balanced (c.0, c.1, if selected methods gs filter (heap x) then c.2 + 1 else c.2)
      kept new h =
          let c = run heap list in
          let left : selected methods gs filter (c.0 x) ≡ selected methods gs filter (heap x) =
            ap (λ (d : (ℕ → User F) × ℕ × ℕ). selected methods gs filter (d.0 x))
              (sym (cleanup_new heap x list new))
            ∙ first_left heap x list
            ∙ ground (arith, new) in
          ground (arith, left, h)

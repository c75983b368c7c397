-- ===== src/Users/Dump/Whole.antt =====
-- Users::dump and Users::restore of src/users.cc, one after the other, on a store of users.
use topy.Prelude.{
  ℕ, ◌+◌, ◌^◌, ◌<◌, ◌≤◌, ◌≡◌, sym, ap, subst, ◌∙◌, inl, inr, Text, text_eq, eq_of_text_eq, true,
  false, some, List, [], ◌∷◌, ℤ, ◌==◌, ==_refl, arith, map, length, Bool-cases,
}
use topy.Field.{Field}
use topy.Fields.{Fields}
use topy.Parser.{Parser}
use topy.Parser.Restoring.{done}
use topy.Parser.Reading.{lines}
use topy.StatsVector.Loops.{Cells}
use topy.Users.{HashTable, FieldMethods, User, Users, vector_update}
use topy.Users.Dump.{present, dump, restore}
use topy.Users.Dump.Entered.{
  read_user, enter_all, AllDumped, restore-dump_vector, IsNew, IsDistinct, AllEntered,
  enter_all-AllEntered,
}
use topy.Users.Dump.RoundTrip.{restored_user}
use topy.Users.Lists.{occurrences, all_users, IsStore}

skipped :
    (heap : ℕ → User Field) (b : ℕ) (l : List ℕ)
    → (heap b).deleted ≡ true
    → present heap (b ∷ l) ≡ present heap l
unfolding present
skipped heap b l gone = ground (arith, gone)

shown :
    (heap : ℕ → User Field) (b : ℕ) (l : List ℕ)
    → (heap b).deleted ≡ false
    → present heap (b ∷ l) ≡ heap b ∷ present heap l
unfolding present
shown heap b l alive = ground (arith, alive)

module _ {T : Type 0} (table : HashTable T) where
  IsNew-present :
      (heap : ℕ → User Field) (t : T) (a : ℕ) (l : List ℕ)
      → table.lookup (heap a).id t ≡ some a
      → occurrences a l ≡ 0
      → ((b : ℕ) → 0 < occurrences b l → table.lookup (heap b).id t ≡ some b)
      → IsNew table (heap a).id (present heap l)
  unfolding present
  IsNew-present heap t a [] here none_there known = tt
  IsNew-present heap t a (b ∷ l) here none_there known =
      let apart : (a == b) ≡ false = ground (arith, none_there) in
      let rest =
        IsNew-present heap t a l here (ground (arith, none_there))
          (λ c h. known c (ground (arith, h))) in
      elim (Bool-cases (heap b).deleted) [
        | inl gone ↦ subst (IsNew table (heap a).id) (sym (skipped heap b l gone)) rest
        | inr alive ↦
            subst (IsNew table (heap a).id) (sym (shown heap b l alive))
              (different b apart (known b (ground (arith, ==_refl b))), rest)
      ]
    where
      different :
          (b : ℕ)
          → (a == b) ≡ false
          → table.lookup (heap b).id t ≡ some b
          → text_eq (heap b).id (heap a).id ≡ false
      different b apart there = elim (Bool-cases (text_eq (heap b).id (heap a).id)) [
        | inl same ↦
            let e : some b ≡ some a =
              sym there ∙ ap (λ (k : Text). table.lookup k t) (eq_of_text_eq _ _ same) ∙ here in
            absurd (ground (arith, e, apart))
        | inr other ↦ other
      ]

  IsDistinct-present :
      (heap : ℕ → User Field) (t : T) (l : List ℕ)
      → ((b : ℕ) → 0 < occurrences b l → table.lookup (heap b).id t ≡ some b)
      → ((b : ℕ) → occurrences b l ≤ 1)
      → IsDistinct table (present heap l)
  unfolding present
  IsDistinct-present heap t [] known once = tt
  IsDistinct-present heap t (a ∷ l) known once =
      let rest =
        IsDistinct-present heap t l (λ b h. known b (ground (arith, h)))
          (λ b. ground (arith, once b)) in
      elim (Bool-cases (heap a).deleted) [
        | inl gone ↦ subst (IsDistinct table) (sym (skipped heap a l gone)) rest
        | inr alive ↦ subst (IsDistinct table) (sym (shown heap a l alive)) (
          IsNew-present heap t a l (known a (ground (arith, ==_refl a)))
              (ground (arith, once a, ==_refl a)) (λ b h. known b (ground (arith, h))),
          rest,
        )
      ]

  IsNew-map :
      (memory : Cells) (fs : Fields) (size : ℕ) (id : Text) (l : List (User Field))
      → IsNew table id l
      → IsNew table id (map (read_user memory fs size) l)
  unfolding restored_user
  IsNew-map memory fs size id [] h = tt
  IsNew-map memory fs size id (u ∷ l) h = (h.0, IsNew-map memory fs size id l h.1)

  IsDistinct-map :
      (memory : Cells) (fs : Fields) (size : ℕ) (l : List (User Field))
      → IsDistinct table l
      → IsDistinct table (map (read_user memory fs size) l)
  unfolding restored_user
  IsDistinct-map memory fs size [] h = tt
  IsDistinct-map memory fs size (u ∷ l) h =
      (IsNew-map memory fs size u.id l h.0, IsDistinct-map memory fs size l h.1)

  module _ (methods : FieldMethods Field) (us : Users T Field)
      (store : IsStore table methods us) where
    -- The users that Users::dump writes.
    abbrev pub dumped : List (User Field)
    dumped = present us.heap (all_users table methods us)

    dumped-IsDistinct : IsDistinct table dumped
    dumped-IsDistinct =
        IsDistinct-present us.heap us.hash_table (all_users table methods us) store.found once
      where
        once : (b : ℕ) → occurrences b (all_users table methods us) ≤ 1
        once b = elim (Bool-cases (occurrences b (all_users table methods us) == 0)) [
          | inl none_there ↦ ground (arith, none_there)
          | inr some_there ↦
              let there =
                store.owned (us.heap b).id b (store.found b (ground (arith, some_there))) in
              omega (arith, there.1)
        ]

    -- The dump of a store, in front of `rest`, is read back: the users that are not deleted are entered
    -- one after the other, and then each is found under its id.
    pub restore-dump_store :
        (failed : Text → ℤ) (memory : Cells) (fs : Fields) (size : ℕ) (new : Users T Field)
        (rest : Text) (p : Parser)
        → AllDumped table failed memory fs size dumped
        → length dumped < 2 ^ 31
        → (restore failed memory table fs size new (record p { text = dump size us rest })
            ≡ done
                (enter_all table (map (read_user memory fs size) dumped) new)
                (record (lines (length dumped + 2) p) { text = rest }))
          × AllEntered table
              (map (read_user memory fs size) dumped)
              (enter_all table (map (read_user memory fs size) dumped) new)
    unfolding dump vector_update
    restore-dump_store failed memory fs size new rest p h few = (
      restore-dump_vector table failed memory fs size dumped new rest p h few,
      enter_all-AllEntered table (map (read_user memory fs size) dumped) new
          (IsDistinct-map memory fs size dumped dumped-IsDistinct),
    )

-- ===== src/StdMap/Laws.antt =====
-- The lemmas on std::map that the registries of src/groups.cc, src/fields.cc and src/users_sets.cc use.
use topy.Prelude.{
  Text, text_eq, text_lt, text_eq_iff, text_lt_irrefl, text_lt_trans, text_lt_total, ◌≡◌, refl, ap,
  ◌∙◌, ◌++◌, true, false, inl, inr, none, some, [], ◌∷◌, arith, if◌then◌else◌, Option-cases,
}
use topy.StdMap.{StdMap, find, place, insert, erase}

module _ {ℓ} {V : Type ℓ} where
  -- Keys increase along the list, so no key stands twice.
  abbrev AllAbove : Text → StdMap V → Type 0
  AllAbove k [] = Unit {0}
  AllAbove k ((j, v) ∷ m) = (text_lt k j ≡ true) × AllAbove k m

  abbrev pub IsOrdered : StdMap V → Type 0
  IsOrdered [] = Unit {0}
  IsOrdered ((k, v) ∷ m) = AllAbove k m × IsOrdered m

  pub find-place :
      (k j : Text) (v : V) (m : StdMap V)
      → find k m ≡ none
      → find j (place k v m) ≡ (if text_eq k j then some v else find j m)
  unfolding find place
  find-place k j v [] h = refl
  find-place k j v ((i, w) ∷ m) h =
      ground (arith, text_eq_iff k j, text_eq_iff i k, text_eq_iff i j, find-place k j v m)

  -- insert keeps what is there.
  pub find-insert :
      (k j : Text) (v : V) (m : StdMap V)
      → find j (insert k v m).0 ≡ (if text_eq k j then some (insert k v m).2 else find j m)
  unfolding insert
  find-insert k j v m = elim (Option-cases (find k m)) [
    | inl fresh ↦ rw fresh (find-place k j v m fresh)
    | inr (w, there) ↦ rw there (ground (arith, text_eq_iff k j))
  ]

  AllAbove-mono : (k j : Text) (m : StdMap V) → text_lt k j ≡ true → AllAbove j m → AllAbove k m
  AllAbove-mono k j [] h a = tt
  AllAbove-mono k j ((i, w) ∷ m) h a = (text_lt_trans k j i h a.0, AllAbove-mono k j m h a.1)

  AllAbove-place :
      (i k : Text) (v : V) (m : StdMap V)
      → text_lt i k ≡ true
      → AllAbove i m
      → AllAbove i (place k v m)
  unfolding place
  AllAbove-place i k v [] h a = (h, tt)
  AllAbove-place i k v ((j, w) ∷ m) h a = ground (arith, AllAbove-place i k v m)

  place-IsOrdered :
      (k : Text) (v : V) (m : StdMap V) → find k m ≡ none → IsOrdered m → IsOrdered (place k v m)
  unfolding place find
  place-IsOrdered k v [] f o = (tt, tt)
  place-IsOrdered k v ((j, w) ∷ m) f o = ground (
    arith,
    place-IsOrdered k v m,
    AllAbove-mono k j m,
    AllAbove-place j k v m,
    text_lt_total k j,
    text_eq_iff k j,
    text_eq_iff j k,
  )

  pub insert-IsOrdered :
      (k : Text) (v : V) (m : StdMap V) → IsOrdered m → IsOrdered (insert k v m).0
  unfolding insert
  insert-IsOrdered k v m o = elim (Option-cases (find k m)) [
    | inl fresh ↦ rw fresh (place-IsOrdered k v m fresh o)
    | inr (w, there) ↦ rw there o
  ]

  AllAbove-erase : (i k : Text) (m : StdMap V) → AllAbove i m → AllAbove i (erase k m)
  unfolding erase
  AllAbove-erase i k [] a = tt
  AllAbove-erase i k ((j, w) ∷ m) a = ground (arith, AllAbove-erase i k m)

  pub erase-IsOrdered : (k : Text) (m : StdMap V) → IsOrdered m → IsOrdered (erase k m)
  unfolding erase
  erase-IsOrdered k [] o = tt
  erase-IsOrdered k ((j, w) ∷ m) o = ground (arith, erase-IsOrdered k m, AllAbove-erase j k m)

  find_below : (k : Text) (m : StdMap V) → AllAbove k m → find k m ≡ none
  unfolding find
  find_below k [] a = refl
  find_below k ((j, w) ∷ m) a = ground (arith, find_below k m, text_eq_iff j k, text_lt_irrefl k)

  pub find-erase :
      (k j : Text) (m : StdMap V)
      → IsOrdered m
      → find j (erase k m) ≡ (if text_eq k j then none else find j m)
  unfolding find erase
  find-erase k j [] o = ground arith
  find-erase k j ((i, w) ∷ m) o =
      ground
        (arith, find-erase k j m, find_below i m, text_eq_iff i k, text_eq_iff i j, text_eq_iff k j)

  pub insert_new :
      (k : Text) (v : V) (m : StdMap V) → find k m ≡ none → insert k v m ≡ (place k v m, true, v)
  unfolding insert
  insert_new k v m e = rw e

  pub insert_old :
      (k : Text) (v w : V) (m : StdMap V) → find k m ≡ some w → insert k v m ≡ (m, false, w)
  unfolding insert
  insert_old k v w m e = rw e

  AllAbove-last :
      (j k : Text) (v : V) (m l : StdMap V) → AllAbove j (m ++ ((k, v) ∷ l)) → text_lt j k ≡ true
  AllAbove-last j k v [] l a = a.0
  AllAbove-last j k v ((i, w) ∷ m) l a = AllAbove-last j k v m l a.1

  -- A key above all others goes to the end.
  pub insert_last :
      (k : Text) (v : V) (m l : StdMap V)
      → IsOrdered (m ++ ((k, v) ∷ l))
      → insert k v m ≡ (m ++ ((k, v) ∷ []), true, v)
  unfolding find place
  insert_last k v m l o =
      insert_new k v m (missing m o) ∙ ap (λ (n : StdMap V). (n, true, v)) (placed m o)
    where
      missing : (m : StdMap V) → IsOrdered (m ++ ((k, v) ∷ l)) → find k m ≡ none
      missing [] o = refl
      missing ((j, w) ∷ m) o =
          ground
            (arith, missing m o.1, AllAbove-last j k v m l o.0, text_eq_iff j k, text_lt_irrefl k)

      placed : (m : StdMap V) → IsOrdered (m ++ ((k, v) ∷ l)) → place k v m ≡ m ++ ((k, v) ∷ [])
      placed [] o = refl
      placed ((j, w) ∷ m) o =
          ground (
            arith,
            placed m o.1,
            AllAbove-last j k v m l o.0,
            text_lt_irrefl k,
            text_lt_trans k j k,
          )

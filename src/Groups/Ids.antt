-- ===== src/Groups/Ids.antt =====
-- Names and ids in src/groups.cc: add, del, clear and restore_group, seen by get_id and get_name.
use topy.Prelude.{
  ℕ, ◌+◌, ◌%◌, ◌^◌, ◌≤◌, ◌<◌, ◌≡◌, refl, sym, ap, subst, ◌⊎◌, ◌∙◌, inl, inr, Text, text_eq,
  text_eq_iff, text_eq_refl, Bool, false, none, some, [], ◌∷◌, arith, leb, if◌then◌else◌,
  Option-cases,
}
use topy.StdMap
use topy.StdMap.{StdMap}
use topy.StdMap.Laws.{
  IsOrdered, find-place, find-insert, find-erase, insert-IsOrdered, insert_new, insert_old,
}
use topy.Groups.{
  Group, Groups, group_unknown, id_of, add, add_masked, del, get_id, get_name, find_id,
  restore_group, clear,
}

text_eq_swap : (s t : Text) → text_eq s t ≡ false → text_eq t s ≡ false
text_eq_swap s t h = ground (arith, text_eq_iff s t, text_eq_iff t s)

-- Every id of the list is below n.
abbrev pub IdsBelow : ℕ → StdMap Group → Type 0
IdsBelow n [] = Unit {0}
IdsBelow n ((name, g) ∷ rest) = (g.id < n) × IdsBelow n rest

-- A state that no group has reached by an id of its own choice: the counter is above all ids.
pub record IsFresh (gs : Groups) : Type 0 where
  pub below : IdsBelow gs.index_counter gs.list
  pub ordered : IsOrdered gs.list

IdsBelow-mono : (m n : ℕ) (l : StdMap Group) → m ≤ n → IdsBelow m l → IdsBelow n l
IdsBelow-mono m n [] h b = tt
IdsBelow-mono m n ((name, g) ∷ rest) h b = (omega arith, IdsBelow-mono m n rest h b.1)

IdsBelow-place :
    (n : ℕ) (name : Text) (g : Group) (l : StdMap Group)
    → g.id < n
    → IdsBelow n l
    → IdsBelow n (StdMap.place name g l)
unfolding StdMap.place
IdsBelow-place n name g [] h b = (h, tt)
IdsBelow-place n name g ((k, x) ∷ rest) h b = ground (arith, IdsBelow-place n name g rest)

IdsBelow-erase :
    (n : ℕ) (name : Text) (l : StdMap Group) → IdsBelow n l → IdsBelow n (StdMap.erase name l)
unfolding StdMap.erase
IdsBelow-erase n name [] b = tt
IdsBelow-erase n name ((k, x) ∷ rest) b = ground (arith, IdsBelow-erase n name rest)

find_id_above : (n : ℕ) (l : StdMap Group) → IdsBelow n l → find_id n l ≡ none
unfolding find_id
find_id_above n [] b = refl
find_id_above n ((k, x) ∷ rest) b = ground (arith, find_id_above n rest)

find_id-place :
    (name : Text) (g : Group) (l : StdMap Group)
    → IdsBelow g.id l
    → find_id g.id (StdMap.place name g l) ≡ some (name, g)
unfolding find_id StdMap.place
find_id-place name g [] b = ground arith
find_id-place name g ((k, x) ∷ rest) b = ground (arith, find_id-place name g rest)

-- After add of a name the id of that name is what add returned, and the ids of the other names are
-- as before.
pub get_id-add :
    (name other : Text) (gs : Groups)
    → get_id other (add name gs).0
      ≡ (if text_eq name other then (add name gs).1 else get_id other gs)
unfolding get_id add
get_id-add name other gs =
    ground (arith, find-insert name other (record { id = gs.index_counter; mask = 0 }) gs.list)

IdsBelow-find :
    (n : ℕ) (name : Text) (g : Group) (l : StdMap Group)
    → IdsBelow n l
    → StdMap.find name l ≡ some g
    → g.id < n
unfolding StdMap.find
IdsBelow-find n name g [] b e = cc
IdsBelow-find n name g ((k, x) ∷ rest) b e = ground (arith, IdsBelow-find n name g rest)

add_new :
    (name : Text) (gs : Groups)
    → StdMap.find name gs.list ≡ none
    → add name gs ≡ (
      record {
        index_counter = (gs.index_counter + 1) % 2 ^ 32;
        list = StdMap.place name (record { id = gs.index_counter; mask = 0 }) gs.list;
      },
      gs.index_counter,
    )
unfolding add
add_new name gs e = rw (insert_new name (record { id = gs.index_counter; mask = 0 }) gs.list e)

add_old :
    (name : Text) (g : Group) (gs : Groups)
    → StdMap.find name gs.list ≡ some g
    → add name gs ≡ (gs, g.id)
unfolding add
add_old name g gs e = rw (insert_old name (record { id = gs.index_counter; mask = 0 }) g gs.list e)

-- In a fresh state an unknown name is not in the list.
unknown-none :
    (name : Text) (gs : Groups)
    → IsFresh gs
    → gs.index_counter ≤ group_unknown
    → get_id name gs ≡ group_unknown
    → StdMap.find name gs.list ≡ none
unfolding get_id id_of
unknown-none name gs fresh room missing = elim (Option-cases (StdMap.find name gs.list)) [
  | inl e ↦ e
  | inr (g, e) ↦
      let low = IdsBelow-find gs.index_counter name g gs.list fresh.below e in
      absurd (ground (arith, missing, e, low))
]

get_name_placed :
    (name : Text) (gs : Groups) (c : ℕ)
    → IdsBelow gs.index_counter gs.list
    → get_name gs.index_counter (record {
      index_counter = c;
      list = StdMap.place name (record { id = gs.index_counter; mask = 0 }) gs.list;
    })
      ≡ name
unfolding get_name
get_name_placed name gs c below =
    rw (find_id-place name (record { id = gs.index_counter; mask = 0 }) gs.list below, get_name)

-- In a state whose counter is above all ids and whose map is ordered, a name that has no group gets
-- from add an id by which get_name finds the name again, if the counter is below 2^32 - 1.
pub get_name-add :
    (name : Text) (gs : Groups)
    → IsFresh gs
    → get_id name gs ≡ group_unknown
    → gs.index_counter < group_unknown
    → get_name (add name gs).1 (add name gs).0 ≡ name
get_name-add name gs fresh missing room =
    let new = unknown-none name gs fresh (omega arith) missing in
    rw (add_new name gs new) (get_name_placed name gs _ fresh.below)

-- add keeps the counter above all ids and the map ordered, while the counter is below 2^32 - 1.
pub add-IsFresh :
    (name : Text) (gs : Groups)
    → gs.index_counter < group_unknown
    → IsFresh gs
    → IsFresh (add name gs).0
add-IsFresh name gs room h = elim (Option-cases (StdMap.find name gs.list)) [
  | inl e ↦ rw (add_new name gs e) (record {
    below =
        IdsBelow-place _ name (record { id = gs.index_counter; mask = 0 }) gs.list (omega arith)
          (IdsBelow-mono gs.index_counter _ gs.list (omega arith) h.below);
    ordered =
        subst (λ (r : StdMap Group × Bool × Group). IsOrdered r.0)
          (insert_new name (record { id = gs.index_counter; mask = 0 }) gs.list e)
          (insert-IsOrdered name (record { id = gs.index_counter; mask = 0 }) gs.list h.ordered);
  })
  | inr (g, e) ↦ rw (add_old name g gs e) h
]

-- restore_group keeps the counter above all ids and the map ordered, whatever the name and for
-- every id below 2^32 - 1.
pub restore_group-IsFresh :
    (name : Text) (id mask : ℕ) (gs : Groups)
    → id < group_unknown
    → IsFresh gs
    → IsFresh (restore_group name id mask gs)
unfolding restore_group
restore_group-IsFresh name id mask gs room h = record {
  below = restored (Option-cases (StdMap.find name gs.list));
  ordered = insert-IsOrdered name (record { id = id; mask = mask }) gs.list h.ordered;
}
  where
    next : ℕ
    next = if leb gs.index_counter id then (id + 1) % 2 ^ 32 else gs.index_counter

    grows : gs.index_counter ≤ next
    grows = ground arith

    above : id < next
    above = ground arith

    restored :
        (StdMap.find name gs.list ≡ none) ⊎ ((g : Group) × (StdMap.find name gs.list ≡ some g))
        → IdsBelow next (StdMap.insert name (record { id = id; mask = mask }) gs.list).0
    restored (inl e) =
        rw (insert_new name (record { id = id; mask = mask }) gs.list e)
          (IdsBelow-place next name _ gs.list above (IdsBelow-mono _ next gs.list grows h.below))
    restored (inr (g, e)) =
        rw (insert_old name (record { id = id; mask = mask }) g gs.list e)
          (IdsBelow-mono _ next gs.list grows h.below)

-- On an ordered map del returns the id of the name, or GROUP_UNKNOWN, and afterwards the name is
-- unknown and the ids of the other names are as before.
pub get_id-del :
    (name other : Text) (gs : Groups)
    → IsOrdered gs.list
    → ((del name gs).1 ≡ get_id name gs)
      × (get_id other (del name gs).0
          ≡ (if text_eq name other then group_unknown else get_id other gs))
unfolding del get_id id_of
get_id-del name other gs o = ground (arith, find-erase name other gs.list o, text_eq_iff name other)

-- After clear every name is unknown, and the next group added gets the id that the counter showed
-- before.
pub add-clear :
    (name other : Text) (gs : Groups)
    → (get_id other (clear gs) ≡ group_unknown) × ((add name (clear gs)).1 ≡ gs.index_counter)
unfolding clear get_id id_of add StdMap.insert StdMap.find
add-clear name other gs = (refl, refl)

add_masked_new :
    (name : Text) (id mask : ℕ) (gs : Groups)
    → StdMap.find name gs.list ≡ none
    → (add_masked name id mask gs).0
      ≡ record gs { list = StdMap.place name (record { id = id; mask = mask }) gs.list }
unfolding add_masked
add_masked_new name id mask gs e = rw (insert_new name (record { id = id; mask = mask }) gs.list e)

get_id-place :
    (name other : Text) (g : Group) (gs : Groups)
    → StdMap.find name gs.list ≡ none
    → get_id other (record gs { list = StdMap.place name g gs.list })
      ≡ (if text_eq name other then g.id else get_id other gs)
unfolding get_id id_of
get_id-place name other g gs e = ground (arith, find-place name other g gs.list e)

-- A new group added with the id that is next in turn has the same id as the next new group that is
-- added by its name alone.
pub add_masked_collides :
    (a b : Text) (mask : ℕ) (gs : Groups)
    → StdMap.find a gs.list ≡ none
    → StdMap.find b gs.list ≡ none
    → text_eq a b ≡ false
    → let g = (add b (add_masked a gs.index_counter mask gs).0).0 in get_id a g ≡ get_id b g
add_masked_collides a b mask gs new_a new_b ne =
    rw (add_masked_new a gs.index_counter mask gs new_a) (id_a ∙ sym id_b)
  where
    masked : Groups
    masked = record gs {
      list = StdMap.place a (record { id = gs.index_counter; mask = mask }) gs.list;
    }

    shown_a : get_id a masked ≡ gs.index_counter
    shown_a =
        rw (
          get_id-place a a (record { id = gs.index_counter; mask = mask }) gs new_a,
          text_eq_refl a,
        )

    still_new : StdMap.find b masked.list ≡ none
    still_new =
        rw (find-place a b (record { id = gs.index_counter; mask = mask }) gs.list new_a, ne) new_b

    taken : add b masked ≡ (
      record {
        index_counter = (gs.index_counter + 1) % 2 ^ 32;
        list = StdMap.place b (record { id = gs.index_counter; mask = 0 }) masked.list;
      },
      gs.index_counter,
    )
    taken = add_new b masked still_new

    id_a : get_id a (add b masked).0 ≡ gs.index_counter
    id_a = rw (get_id-add b a masked, text_eq_swap a b ne) shown_a

    id_b : get_id b (add b masked).0 ≡ gs.index_counter
    id_b = rw (get_id-add b b masked, text_eq_refl b) (ap (λ (r : Groups × ℕ). r.1) taken)

-- ===== src/Top/Sort.antt =====
-- `list.sort(compare_items)` of src/top.cc: std::list::sort is a stable sort, here by insertion at
-- the end of the items that are not worse.
use topy.Prelude.{
  ℕ, suc, ◌+◌, ◌≡◌, refl, ◌∙◌, Bool, List, [], ◌∷◌, ◌++◌, arith, ℤ, ◌≤ℤ◌, ltb_ℤ, if◌then◌else◌,
  length, append_assoc, append-nil,
}

pub record TopItem : Type 0 where
  pub user : ℕ
  pub score : ℤ

unfoldable pub compare_items : TopItem → TopItem → Bool
compare_items first second = ltb_ℤ second.score first.score

unfoldable pub insert_item : TopItem → List TopItem → List TopItem
unfolding compare_items
insert_item x [] = x ∷ []
insert_item x (y ∷ ys) = if compare_items x y then x ∷ y ∷ ys else y ∷ insert_item x ys

unfoldable pub sort_onto : List TopItem → List TopItem → List TopItem
sort_onto acc [] = acc
sort_onto acc (x ∷ xs) = sort_onto (insert_item x acc) xs

unfoldable pub sort : List TopItem → List TopItem
unfolding sort_onto insert_item
sort l = sort_onto [] l

-- The head is at least as good as what follows.
abbrev pub AllBelow : ℤ → List TopItem → Type 0
AllBelow s [] = Unit {0}
AllBelow s (y ∷ ys) = (y.score ≤ℤ s) × AllBelow s ys

abbrev pub IsSorted : List TopItem → Type 0
IsSorted [] = Unit {0}
IsSorted (x ∷ xs) = AllBelow x.score xs × IsSorted xs

AllBelow-insert :
    (s : ℤ) (x : TopItem) (l : List TopItem)
    → x.score ≤ℤ s
    → AllBelow s l
    → AllBelow s (insert_item x l)
unfolding insert_item
AllBelow-insert s x [] h a = (h, tt)
AllBelow-insert s x (y ∷ ys) h a = ground (arith, AllBelow-insert s x ys)

AllBelow-mono : (s t : ℤ) (l : List TopItem) → s ≤ℤ t → AllBelow s l → AllBelow t l
AllBelow-mono s t [] h a = tt
AllBelow-mono s t (y ∷ ys) h a = (omega arith, AllBelow-mono s t ys h a.1)

insert-IsSorted : (x : TopItem) (l : List TopItem) → IsSorted l → IsSorted (insert_item x l)
unfolding insert_item
insert-IsSorted x [] h = (tt, tt)
insert-IsSorted x (y ∷ ys) h = ground (
  arith,
  insert-IsSorted x ys h.1,
  AllBelow-insert y.score x ys,
  AllBelow-mono y.score x.score ys,
)

sort_onto-IsSorted : (acc l : List TopItem) → IsSorted acc → IsSorted (sort_onto acc l)
unfolding sort_onto
sort_onto-IsSorted acc [] h = h
sort_onto-IsSorted acc (x ∷ xs) h =
    sort_onto-IsSorted (insert_item x acc) xs (insert-IsSorted x acc h)

pub sort-IsSorted : (l : List TopItem) → IsSorted (sort l)
unfolding sort
sort-IsSorted l = sort_onto-IsSorted [] l tt

sort_onto-append : (acc l m : List TopItem) → sort_onto acc (l ++ m) ≡ sort_onto (sort_onto acc l) m
unfolding sort_onto
sort_onto-append acc [] m = refl
sort_onto-append acc (x ∷ xs) m = sort_onto-append (insert_item x acc) xs m

-- One more item at the end is inserted into the sorted rest.
pub sort-append : (l : List TopItem) (x : TopItem) → sort (l ++ x ∷ []) ≡ insert_item x (sort l)
unfolding sort
sort-append l x = sort_onto-append [] l (x ∷ [])

-- Sorting a sorted list changes nothing.
AllBelow_last :
    (s : ℤ) (l : List TopItem) (x : TopItem) (m : List TopItem)
    → AllBelow s (l ++ x ∷ m)
    → x.score ≤ℤ s
AllBelow_last s [] x m a = a.0
AllBelow_last s (y ∷ l) x m a = AllBelow_last s l x m a.1

insert_last :
    (acc : List TopItem) (x : TopItem) (m : List TopItem)
    → IsSorted (acc ++ x ∷ m)
    → insert_item x acc ≡ acc ++ x ∷ []
unfolding insert_item
insert_last [] x m h = refl
insert_last (y ∷ acc) x m h =
    ground (arith, insert_last acc x m h.1, AllBelow_last y.score acc x m h.0)

sort_onto_sorted : (acc l : List TopItem) → IsSorted (acc ++ l) → sort_onto acc l ≡ acc ++ l
unfolding sort_onto
sort_onto_sorted acc [] h = rw append-nil
sort_onto_sorted acc (x ∷ xs) h =
    let e = append_assoc acc (x ∷ []) xs in
    rw (insert_last acc x xs h) (sort_onto_sorted (acc ++ x ∷ []) xs (rw e h) ∙ e)

pub sort_sorted : (l : List TopItem) → IsSorted l → sort l ≡ l
unfolding sort
sort_sorted l h = sort_onto_sorted [] l h

pub length-insert : (x : TopItem) (l : List TopItem) → length (insert_item x l) ≡ suc (length l)
unfolding insert_item
length-insert x [] = refl
length-insert x (y ∷ ys) = ground (arith, length-insert x ys)

length-sort_onto : (acc l : List TopItem) → length (sort_onto acc l) ≡ length l + length acc
unfolding sort_onto
length-sort_onto acc [] = omega arith
length-sort_onto acc (x ∷ xs) =
    omega (arith, length-sort_onto (insert_item x acc) xs, length-insert x acc)

pub length-sort : (l : List TopItem) → length (sort l) ≡ length l
unfolding sort
length-sort l = omega (arith, length-sort_onto [] l)

-- ===== src/Top/Items.antt =====
-- The items of one user in the sort of src/top.cc.
use topy.Prelude.{ℕ, suc, ◌+◌, ◌≡◌, refl, List, [], ◌∷◌, ◌==◌, if◌then◌else◌, arith}
use topy.Top.Sort.{TopItem, insert_item, sort_onto, sort}

-- How many items are of a user.
abbrev pub items_of : ℕ → List TopItem → ℕ
items_of u [] = 0
items_of u (x ∷ l) = if x.user == u then suc (items_of u l) else items_of u l

items_of-insert :
    (u : ℕ) (x : TopItem) (l : List TopItem) → items_of u (insert_item x l) ≡ items_of u (x ∷ l)
unfolding insert_item
items_of-insert u x [] = refl
items_of-insert u x (y ∷ l) = ground (arith, items_of-insert u x l)

items_of-sort_onto :
    (u : ℕ) (acc l : List TopItem) → items_of u (sort_onto acc l) ≡ items_of u acc + items_of u l
unfolding sort_onto
items_of-sort_onto u acc [] = omega arith
items_of-sort_onto u acc (x ∷ l) =
    ground (arith, items_of-sort_onto u (insert_item x acc) l, items_of-insert u x acc)

pub items_of-sort : (u : ℕ) (l : List TopItem) → items_of u (sort l) ≡ items_of u l
unfolding sort
items_of-sort u l = omega (arith, items_of-sort_onto u [] l)

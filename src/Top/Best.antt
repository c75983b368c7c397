-- ===== src/Top/Best.antt =====
-- The class Top of src/top.cc over a stream of items.
use topy.Prelude.{
  ℕ, zero, suc, ◌+◌, ◌*◌, ◌%◌, ◌^◌, ◌≤◌, ◌<◌, ◌≡◌, refl, sym, ap, subst, ◌∙◌, inl, inr, true, not,
  ◌||◌, List, [], ◌∷◌, ◌++◌, arith, ℤ, ◌≤ℤ◌, ltb_ℤ, ltb, length, take, Bool-cases, length-take,
  take_all, take-take, append-nil, append_assoc,
}
use topy.Top.Sort.{
  TopItem, compare_items, insert_item, sort, AllBelow, IsSorted, sort-IsSorted, sort-append,
  sort_sorted, length-sort,
}
use topy.Top.{Top, new_top, normalize, add, finalize, add_all, add_item, overflow, back_score}

-- The first n items of l exist and have at least the score w.
abbrev Floor : ℕ → ℤ → List TopItem → Type 0
Floor zero w l = Unit {0}
Floor (suc n) w [] = ⊥
Floor (suc n) w (x ∷ xs) = (w ≤ℤ x.score) × Floor n w xs

-- An item that is not above the floor does not enter the first n.
take-insert_below :
    (n : ℕ) (w : ℤ) (x : TopItem) (l : List TopItem)
    → Floor n w l
    → x.score ≤ℤ w
    → take n (insert_item x l) ≡ take n l
unfolding insert_item compare_items
take-insert_below zero w x l f h = refl
take-insert_below (suc n) w x [] f h = absurd f
take-insert_below (suc n) w x (y ∷ ys) f h = ground (arith, take-insert_below n w x ys f.1)

-- The first n items after an insertion depend only on the first n items before it.
take-insert :
    (n : ℕ) (x : TopItem) (l m : List TopItem)
    → take n l ≡ take n m
    → take n (insert_item x l) ≡ take n (insert_item x m)
unfolding insert_item compare_items
take-insert zero x l m e = refl
take-insert (suc n) x [] [] e = refl
take-insert (suc n) x [] (z ∷ zs) e = cc
take-insert (suc n) x (y ∷ ys) [] e = cc
take-insert (suc n) x (y ∷ ys) (z ∷ zs) e = ground (
  arith,
  take-insert n x ys zs,
  take-take n (suc n) (y ∷ ys) (omega arith),
  take-take n (suc n) (z ∷ zs) (omega arith),
  ap (take n) e,
)

Floor-pred : (n : ℕ) (w : ℤ) (l : List TopItem) → Floor (suc n) w l → Floor n w l
Floor-pred zero w l f = tt
Floor-pred (suc n) w [] f = absurd f
Floor-pred (suc n) w (x ∷ xs) f = (f.0, Floor-pred n w xs f.1)

Floor-insert :
    (n : ℕ) (w : ℤ) (x : TopItem) (l : List TopItem)
    → Floor n w l
    → w ≤ℤ x.score
    → Floor n w (insert_item x l)
unfolding insert_item compare_items
Floor-insert zero w x l f h = tt
Floor-insert (suc n) w x [] f h = absurd f
Floor-insert (suc n) w x (y ∷ ys) f h =
    ground (arith, Floor-insert n w x ys f.1, Floor-pred n w (y ∷ ys) f)

back-le : (s t : ℤ) (l : List TopItem) → AllBelow s l → t ≤ℤ s → back_score t l ≤ℤ s
unfolding back_score
back-le s t [] a h = h
back-le s t (x ∷ xs) a h = back-le s x.score xs a.1 a.0

-- The last score of a sorted list is a floor for all of it.
Floor-back : (g : ℤ) (l : List TopItem) → IsSorted l → Floor (length l) (back_score g l) l
unfolding back_score
Floor-back g [] h = tt
Floor-back g (x ∷ xs) h = (back-le x.score x.score xs h.0 (omega arith), Floor-back x.score xs h.1)

AllBelow-take : (s : ℤ) (n : ℕ) (l : List TopItem) → AllBelow s l → AllBelow s (take n l)
AllBelow-take s zero l a = tt
AllBelow-take s (suc n) [] a = tt
AllBelow-take s (suc n) (x ∷ xs) a = (a.0, AllBelow-take s n xs a.1)

take-IsSorted : (n : ℕ) (l : List TopItem) → IsSorted l → IsSorted (take n l)
take-IsSorted zero l h = tt
take-IsSorted (suc n) [] h = tt
take-IsSorted (suc n) (x ∷ xs) h = (AllBelow-take x.score n xs h.0, take-IsSorted n xs h.1)

module _ (garbage : ℤ) where
  -- What normalize leaves, on both branches of its test.
  list-normalize : (t : Top) → (normalize garbage t).list ≡ take t.size (sort t.list)
  unfolding normalize
  list-normalize t = ground (arith, take_all t.size (sort t.list))

  worse-normalize :
      (t : Top) → (normalize garbage t).worse_score ≡ back_score garbage (normalize garbage t).list
  unfolding normalize
  worse-normalize t = refl

  size-normalize : (t : Top) → (normalize garbage t).size ≡ t.size
  unfolding normalize
  size-normalize t = refl

  sort-normalize : (t : Top) → sort (normalize garbage t).list ≡ take t.size (sort t.list)
  sort-normalize t =
      rw (list-normalize t) (sort_sorted _ (take-IsSorted t.size _ (sort-IsSorted t.list)))

  Floor-normalize :
      (t : Top)
      → t.size ≤ length t.list
      → Floor t.size (normalize garbage t).worse_score (sort (normalize garbage t).list)
  Floor-normalize t h =
      rw (sort-normalize t, worse-normalize t, list-normalize t)
        (subst (λ k. Floor k (back_score garbage kept) kept) full
          (Floor-back garbage kept (take-IsSorted t.size _ (sort-IsSorted t.list))))
    where
      kept : List TopItem
      kept = take t.size (sort t.list)

      full : length kept ≡ t.size
      full = omega (arith, length-take t.size (sort t.list), length-sort t.list)

  -- The state `t` after the items `l`: its first items are the best of `l`, and no later item that
  -- is not above `worse_score` can be among them.
  record Keeps (n : ℕ) (t : Top) (l : List TopItem) : Type 0 where
    size : t.size ≡ n
    best : take n (sort t.list) ≡ take n (sort l)
    floor : t.worse_score_def ≡ true → Floor n t.worse_score (sort t.list)

  normalize-Keeps :
      (t : Top) (l : List TopItem)
      → take t.size (sort t.list) ≡ take t.size (sort l)
      → t.size ≤ length t.list
      → Keeps t.size (normalize garbage t) l
  normalize-Keeps t l b h = record {
    size = size-normalize t;
    best = rw (sort-normalize t) (take-take t.size t.size (sort t.list) (omega arith) ∙ b);
    floor = λ _. Floor-normalize t h;
  }

  -- An item that passes the test of add.
  grow_best :
      (n : ℕ) (x : TopItem) (l m : List TopItem)
      → take n (sort l) ≡ take n (sort m)
      → take n (sort (l ++ x ∷ [])) ≡ take n (sort (m ++ x ∷ []))
  grow_best n x l m e = rw (sort-append l x, sort-append m x) (take-insert n x (sort l) (sort m) e)

  grow-Floor :
      (n : ℕ) (w : ℤ) (x : TopItem) (l : List TopItem)
      → Floor n w (sort l)
      → w ≤ℤ x.score
      → Floor n w (sort (l ++ x ∷ []))
  grow-Floor n w x l f h = rw (sort-append l x) (Floor-insert n w x (sort l) f h)

  -- An item that does not.
  drop_best :
      (n : ℕ) (w : ℤ) (x : TopItem) (l m : List TopItem)
      → take n (sort l) ≡ take n (sort m)
      → Floor n w (sort l)
      → x.score ≤ℤ w
      → take n (sort l) ≡ take n (sort (m ++ x ∷ []))
  drop_best n w x l m e f h =
      sym (take-insert_below n w x (sort l) f h)
      ∙ take-insert n x (sort l) (sort m) e
      ∙ ap (take n) (sym (sort-append m x))

  overflow-Keeps :
      (t : Top) (l : List TopItem)
      → t.size < 2 ^ 31
      → Keeps t.size t l
      → Keeps t.size (overflow garbage t) l
  unfolding overflow
  overflow-Keeps t l small k = elim (Bool-cases (ltb (t.size * 2 % 2 ^ 32) (length t.list))) [
    | inl over ↦ rw over (normalize-Keeps t l k.best (ground arith))
    | inr room ↦ rw room k
  ]

  -- Within 31 bits of size, every item that was added is kept or may be forgotten.
  add-Keeps :
      (t : Top) (l : List TopItem) (x : TopItem)
      → t.size < 2 ^ 31
      → Keeps t.size t l
      → Keeps t.size (add garbage t x.user x.score) (l ++ x ∷ [])
  unfolding add add_item
  add-Keeps t l x small k =
      elim (Bool-cases (not t.worse_score_def || ltb_ℤ t.worse_score x.score)) [
        | inl pass ↦ rw pass (
            overflow-Keeps _ (l ++ x ∷ []) small (record {
              size = refl;
              best = grow_best t.size x t.list l k.best;
              floor = λ d. grow-Floor t.size t.worse_score x t.list (k.floor d) (ground arith);
            }))
        | inr fail ↦ rw fail (record {
          size = refl;
          best =
              drop_best t.size t.worse_score x t.list l k.best (k.floor (ground arith))
                (ground arith);
          floor = k.floor;
        })
      ]

  size-add : (t : Top) (user : ℕ) (score : ℤ) → (add garbage t user score).size ≡ t.size
  unfolding add overflow normalize
  size-add t user score = ground arith

  add_all-Keeps :
      (n : ℕ) (t : Top) (l m : List TopItem)
      → n < 2 ^ 31
      → Keeps n t l
      → Keeps n (add_all garbage t m) (l ++ m)
  unfolding add_all
  add_all-Keeps n t l [] small k = rw append-nil k
  add_all-Keeps n t l (x ∷ m) small k = rw (← append_assoc l (x ∷ []) m) (
      add_all-Keeps n (add garbage t x.user x.score) (l ++ x ∷ []) m small (
        subst (λ s. Keeps s (add garbage t x.user x.score) (l ++ x ∷ [])) k.size
          (add-Keeps t l x (rw k.size small) (subst (λ s. Keeps s t l) (sym k.size) k))))

  pub add_all_nil : (t : Top) → add_all garbage t [] ≡ t
  unfolding add_all
  add_all_nil t = refl

  pub add_all-cons :
      (t : Top) (it : TopItem) (rest : List TopItem)
      → add_all garbage t (it ∷ rest) ≡ add_all garbage (add garbage t it.user it.score) rest
  unfolding add_all
  add_all-cons t it rest = refl

  -- The bounded list that a ranking keeps while it runs over the users (items below the worst score
  -- are skipped, and the list is sorted and cut whenever it holds more than twice the size) ends as
  -- the first `size` of all added items in the stable order by decreasing score, for every size
  -- below 2^31 and whatever the constructor leaves unset.
  pub top-best :
      (size : ℕ) (items : List TopItem)
      → size < 2 ^ 31
      → (finalize garbage (add_all garbage (new_top garbage size) items)).list
        ≡ take size (sort items)
  unfolding finalize new_top
  top-best size items small =
      list-normalize _
      ∙ subst
          (λ n.
            take n (sort (add_all garbage (new_top garbage size) items).list)
            ≡ take size (sort items))
          (sym reached.size) reached.best
    where
      reached : Keeps size (add_all garbage (new_top garbage size) items) items
      reached =
          add_all-Keeps size (new_top garbage size) [] items small
            (record { size = refl; best = refl; floor = λ d. cc })

  -- The counter shows how many users passed the filter, modulo 2^32, whatever was dropped.
  users_count-add :
      (t : Top) (user : ℕ) (score : ℤ)
      → (add garbage t user score).users_count ≡ (t.users_count + 1) % 2 ^ 32
  unfolding add overflow normalize
  users_count-add t user score = ground arith

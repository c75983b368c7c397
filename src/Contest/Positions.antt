-- ===== src/Contest/Positions.antt =====
-- find of src/contest.cc in a contest that was finalized.
use topy.Prelude.{
  ℕ, suc, ◌+◌, ◌≡◌, refl, sym, ap, subst, ◌∙◌, ◌⊎◌, inl, inr, List, [], ◌∷◌, ◌++◌, ℤ, pos, negsuc,
  ◌≤ℤ◌, ◌==◌, length, arith, Bool-cases,
}
use topy.Contest.{finalize, find, find_from}
use topy.Top.{TopItem, IsSorted, sort, sort-IsSorted}
use topy.Top.Items.{items_of, items_of-sort}

abbrev pub AllBelow : ℤ → List TopItem → Type 0
AllBelow s [] = Unit {0}
AllBelow s (y ∷ ys) = (y.score ≤ℤ s) × AllBelow s ys

-- Everybody in front is at least as good.
abbrev pub AllAbove : ℤ → List TopItem → Type 0
AllAbove s [] = Unit {0}
AllAbove s (y ∷ ys) = (s ≤ℤ y.score) × AllAbove s ys

-- The first item of a user, with what is in front of it and behind it.
pub record IsPlaced (u : ℕ) (l : List TopItem) (i : ℕ) : Type 0 where
  pub before : List TopItem
  pub item : TopItem
  pub behind : List TopItem
  pub split : l ≡ before ++ item ∷ behind
  pub position : i ≡ length before
  pub user : item.user ≡ u
  pub first : items_of u before ≡ 0
  pub better : AllAbove item.score before
  pub worse : AllBelow item.score behind

-- An item in a list that is sorted is not better than the head.
below_head :
    (s : ℤ) (before : List TopItem) (x : TopItem) (behind : List TopItem)
    → AllBelow s (before ++ x ∷ behind)
    → x.score ≤ℤ s
below_head s [] x behind h = h.0
below_head s (y ∷ before) x behind h = below_head s before x behind h.1

find_from-IsPlaced :
    (u i : ℕ) (l : List TopItem)
    → IsSorted l
    → ((find_from u i l ≡ negsuc 0) × (items_of u l ≡ 0))
      ⊎ ((j : ℕ) × (find_from u i l ≡ pos (i + j)) × IsPlaced u l j)
unfolding find_from
find_from-IsPlaced u i [] sorted = inl (refl, refl)
find_from-IsPlaced u i (x ∷ l) sorted = elim (Bool-cases (x.user == u)) [
  | inl here ↦ inr (
    0,
    ground (arith, here),
    record {
      before = [];
      item = x;
      behind = l;
      split = refl;
      position = refl;
      user = ground (arith, here);
      first = refl;
      better = tt;
      worse = sorted.0;
    },
  )
  | inr other ↦ elim (find_from-IsPlaced u (suc i) l sorted.1) [
    | inl missing ↦ inl (ground (arith, other, missing.0), ground (arith, other, missing.1))
    | inr (j, found, p) ↦ inr (
      suc j,
      ground (arith, other, found),
      record {
        before = x ∷ p.before;
        item = p.item;
        behind = p.behind;
        split = ap (λ (m : List TopItem). x ∷ m) p.split;
        position = ap suc p.position;
        user = p.user;
        first = ground (arith, other, p.first);
        better = (
          below_head x.score p.before p.item p.behind (subst (AllBelow x.score) p.split sorted.0),
          p.better,
        );
        worse = p.worse;
      },
    )
  ]
]

-- In a contest that was finalized, find answers -1 for a user without an item, and for any other
-- the position of its first item, where the items in front of it are at least as good and not of
-- the user, and those behind it are not better.
pub find-finalize :
    (u : ℕ) (l : List TopItem)
    → ((find u (finalize l) ≡ negsuc 0) × (items_of u l ≡ 0))
      ⊎ ((i : ℕ) × (find u (finalize l) ≡ pos i) × IsPlaced u (finalize l) i)
unfolding find finalize
find-finalize u l = elim (find_from-IsPlaced u 0 (sort l) (sort-IsSorted l)) [
  | inl missing ↦ inl (missing.0, sym (items_of-sort u l) ∙ missing.1)
  | inr (i, found, p) ↦ inr (i, found ∙ ap pos (zero_first i), p)
]
  where
    zero_first : (n : ℕ) → 0 + n ≡ n
    zero_first n = omega arith

-- ===== src/Top.antt =====
-- src/top.cc and src/top.hh: the items of a ranking, and the best `size` of a stream of them.
-- A User * is its address, a number.
mod Sort
pub mod Best
pub mod Items
pub use Sort.{TopItem, compare_items, IsSorted, sort-IsSorted, length-sort}
unfoldable pub use Sort.{sort}
use topy.Prelude.{
  ℕ, zero, suc, ◌+◌, ◌*◌, ◌%◌, ◌^◌, Bool, true, false, not, ◌||◌, Option, none, some, List, [], ◌∷◌,
  ◌++◌, map, ℤ, ltb_ℤ, negate, wrap32, ltb, ◌==◌, if◌then◌else◌, length, take,
}

-- TopBase::find_user: the position of the first item of the user; `none` is list.end().
pub find_user : ℕ → List TopItem → Option ℕ
find_user user [] = none
find_user user (it ∷ rest) =
    let later = find_user user rest in
    if it.user == user then some 0 else elim later [ none ↦ none | some i ↦ some (suc i) ]

-- list.erase at a position
pub erase_at : List TopItem → ℕ → List TopItem
erase_at [] i = []
erase_at (x ∷ xs) zero = xs
erase_at (x ∷ xs) (suc i) = x ∷ erase_at xs i

unfoldable pub add_item : List TopItem → ℕ → ℤ → List TopItem
add_item list user score = list ++ record { user = user; score = score } ∷ []

-- TopBase::del: the new list and the result.
pub del : List TopItem → ℕ → List TopItem × Bool
unfolding find_user erase_at
del list user = elim (find_user user list) [
  | none ↦ (list, false)
  | some i ↦ (erase_at list i, true)
]

pub inverse_scores : List TopItem → List TopItem
inverse_scores = map (λ (it : TopItem). record it { score = wrap32 (negate it.score) })

pub record Top : Type 0 where
  pub list : List TopItem
  pub worse_score : ℤ
  pub worse_score_def : Bool
  pub size : ℕ
  pub users_count : ℕ

-- list.back().score; what an empty list shows there is `garbage`.
unfoldable pub back_score : ℤ → List TopItem → ℤ
back_score garbage [] = garbage
back_score garbage (x ∷ xs) = back_score x.score xs

-- The score at the sentinel of an empty list, and what the constructor leaves unset.
module _ (garbage : ℤ) where
  pub new_top : ℕ → Top
  new_top size = record {
    list = [];
    worse_score = garbage;
    worse_score_def = false;
    size = size;
    users_count = 0;
  }

  -- list.sort, list.resize(size) if it is longer, and the new worse_score.
  pub normalize : Top → Top
  unfolding back_score
  normalize t =
      let sorted = sort t.list in
      let kept = if ltb t.size (length sorted) then take t.size sorted else sorted in
      record t { list = kept; worse_score_def = true; worse_score = back_score garbage kept }

  -- if (list.size() > size * 2) normalize(), in unsigned arithmetic.
  overflow : Top → Top
  overflow t = if ltb (t.size * 2 % 2 ^ 32) (length t.list) then normalize t else t

  pub add : Top → ℕ → ℤ → Top
  unfolding add_item
  add t user score =
      let counted = record t { users_count = (t.users_count + 1) % 2 ^ 32 } in
      if not t.worse_score_def || ltb_ℤ t.worse_score score
      then overflow (record counted { list = add_item t.list user score })
      else counted

  pub finalize : Top → Top
  finalize t = normalize t

  -- The loop of VectorUsers::top over the users that pass its filter.
  pub add_all : Top → List TopItem → Top
  add_all t [] = t
  add_all t (it ∷ rest) = add_all (add t it.user it.score) rest

-- ===== src/Users/Ranking.antt =====
-- VectorUsers::top and VectorUsers::rank of src/users.cc, over the rankings of src/top.cc and the lists of
-- src/contest.cc.
use topy.Prelude.{ℕ, Bool, List, [], ◌∷◌, ℤ, negsuc, negate, wrap32, if◌then◌else◌, ◌==◌}
use topy.StatsVector.{int_eq}
use topy.Top
use topy.Top.{TopItem, Top, add_item, inverse_scores, new_top, finalize, sort}
use topy.Filter.{Filter}
use topy.Groups.{Groups}
use topy.Users.{User, FieldMethods, store, selected}

module _ {F : Type 0} (methods : FieldMethods F) (gs : Groups) (filter : Filter) (field_id rule : ℕ)
    (inversed : Bool) where
  -- The score of a user, and the user with the field as score leaves it.
  abbrev pub score_of : User F → ℤ
  score_of u = (methods.score rule (u.field field_id)).0

  abbrev pub scored : User F → User F
  scored u = record u {
    field = λ i. if i == field_id then (methods.score rule (u.field field_id)).1 else u.field i;
  }

  -- if (inversed) score = score * -1;
  abbrev pub directed : ℤ → ℤ
  directed s = if inversed then wrap32 (negate s) else s

  abbrev pub shown : List TopItem → List TopItem
  shown list = if inversed then inverse_scores list else list

  -- One turn of the loop of top.
  unfoldable pub top_step : ℤ → (ℕ → User F) → ℕ → Top → (ℕ → User F) × Top
  top_step garbage heap a t =
      if selected methods gs filter (heap a)
      then (store heap a (scored (heap a)), Top.add garbage t a (directed (score_of (heap a))))
      else (heap, t)

  unfoldable pub top_loop : ℤ → (ℕ → User F) → List ℕ → Top → (ℕ → User F) × Top
  top_loop garbage heap [] t = (heap, t)
  top_loop garbage heap (a ∷ list) t =
      let r = top_step garbage heap a t in top_loop garbage r.0 list r.1

  -- top: the heap, and the items that are put out.
  unfoldable pub top : ℤ → ℕ → (ℕ → User F) → List ℕ → (ℕ → User F) × List TopItem
  unfolding top_loop
  top garbage size heap list =
      let r = top_loop garbage heap list (new_top garbage size) in
      (r.0, shown (finalize garbage r.1).list)

  -- One turn of the loop of rank: a score of -1 is left out.
  unfoldable pub rank_step : (ℕ → User F) → ℕ → List TopItem → (ℕ → User F) × List TopItem
  rank_step heap a contest =
      if selected methods gs filter (heap a)
      then (
        store heap a (scored (heap a)),
        if int_eq (score_of (heap a)) (negsuc 0)
            then contest
            else add_item contest a (directed (score_of (heap a))),
      )
      else (heap, contest)

  unfoldable pub rank_loop : (ℕ → User F) → List ℕ → List TopItem → (ℕ → User F) × List TopItem
  rank_loop heap [] contest = (heap, contest)
  rank_loop heap (a ∷ list) contest = let r = rank_step heap a contest in rank_loop r.0 list r.1

  -- rank: the heap, and the list of the contest.
  unfoldable pub rank : (ℕ → User F) → List ℕ → (ℕ → User F) × List TopItem
  unfolding rank_loop
  rank heap list = let r = rank_loop heap list [] in (r.0, shown (sort r.1))

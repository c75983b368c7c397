-- ===== src/Users/Best.antt =====
-- VectorUsers::top and VectorUsers::rank of src/users.cc over a whole list.
use topy.Prelude.{
  ℕ, ◌^◌, ◌<◌, ◌≡◌, refl, sym, ap, ◌∙◌, inl, inr, Bool, false, not, ◌&&◌, List, [], ◌∷◌, ◌++◌, ℤ,
  negsuc, if◌then◌else◌, arith, take, append_assoc, append-nil, ◌==◌, Bool-cases,
}
use topy.StatsVector.{int_eq}
use topy.Top
use topy.Top.{TopItem, Top, add_item, add_all, new_top, finalize, sort}
use topy.Top.Best.{top-best, add_all_nil, add_all-cons}
use topy.Filter.{Filter}
use topy.Groups.{Groups}
use topy.Users.{User, FieldMethods, store, selected}
use topy.Users.Lists.{occurrences}
use topy.Users.Ranking.{
  score_of, scored, directed, shown, top_step, top_loop, top, rank_step, rank_loop, rank,
}

-- No address stands twice.
abbrev pub Once : List ℕ → Type 0
Once [] = Unit {0}
Once (a ∷ list) = (occurrences a list ≡ 0) × Once list

module _ {F : Type 0} (methods : FieldMethods F) (gs : Groups) (filter : Filter) (field_id rule : ℕ)
    (inversed : Bool) where
  abbrev item : (ℕ → User F) → ℕ → TopItem
  item heap a = record {
    user = a;
    score =
        directed methods gs filter field_id rule inversed
          (score_of methods gs filter field_id rule inversed (heap a));
  }

  -- The users that a test lets through, each with the score that its field has at first.
  pub candidates : (User F → Bool) → (ℕ → User F) → List ℕ → List TopItem
  candidates keep heap [] = []
  candidates keep heap (a ∷ list) =
      let rest = candidates keep heap list in if keep (heap a) then item heap a ∷ rest else rest

  candidates-store :
      (keep : User F → Bool) (heap : ℕ → User F) (x : ℕ) (u : User F) (list : List ℕ)
      → occurrences x list ≡ 0
      → candidates keep (store heap x u) list ≡ candidates keep heap list
  unfolding candidates
  candidates-store keep heap x u [] none_there = refl
  candidates-store keep heap x u (a ∷ list) none_there = elim (Bool-cases (x == a)) [
    | inl here ↦ absurd (ground (arith, here, none_there))
    | inr apart ↦
        let other_user : (a == x) ≡ false = ground (arith, apart) in
        let rest = candidates-store keep heap x u list (ground (arith, apart, none_there)) in
        rw (other_user, candidates, rest) refl
  ]

  -- The loop of top adds the candidates.
  top_loop-candidates :
      (garbage : ℤ) (heap : ℕ → User F) (list : List ℕ) (t : Top)
      → Once list
      → (top_loop methods gs filter field_id rule inversed garbage heap list t).1
        ≡ add_all garbage t (candidates (selected methods gs filter) heap list)
  unfolding top_loop top_step candidates
  top_loop-candidates garbage heap [] t once = sym (add_all_nil garbage t)
  top_loop-candidates garbage heap (a ∷ list) t once =
      elim (Bool-cases (selected methods gs filter (heap a))) [
        | inl chosen ↦
            rw (chosen, top_step, top_loop)
              (top_loop-candidates garbage
                  (store heap a (scored methods gs filter field_id rule inversed (heap a))) list
                  (Top.add garbage t a (item heap a).score) once.1
                ∙ ap (add_all garbage (Top.add garbage t a (item heap a).score))
                    (candidates-store (selected methods gs filter) heap a _ list once.0)
                ∙ sym (
                    add_all-cons garbage t (item heap a)
                      (candidates (selected methods gs filter) heap list)))
        | inr passed_over ↦
            rw (passed_over, top_step, top_loop) (top_loop-candidates garbage heap list t once.1)
      ]

  -- Over a list of users without repetition top puts out the first `size` of the users that are
  -- there and pass the filter, in the stable order by decreasing score (of the negated scores,
  -- negated back, if inversed), each with the score that its field had before the run, for every
  -- size below 2^31.
  pub top-candidates :
      (garbage : ℤ) (size : ℕ) (heap : ℕ → User F) (list : List ℕ)
      → size < 2 ^ 31
      → Once list
      → (top methods gs filter field_id rule inversed garbage size heap list).1
        ≡ shown methods gs filter field_id rule inversed
            (take size (sort (candidates (selected methods gs filter) heap list)))
  unfolding top
  top-candidates garbage size heap list small once =
      ap (shown methods gs filter field_id rule inversed) (
        ap (λ (t : Top). (finalize garbage t).list)
          (top_loop-candidates garbage heap list (new_top garbage size) once)
        ∙ top-best garbage size (candidates (selected methods gs filter) heap list) small)

  -- What rank lets through: a score of -1 stands for none.
  abbrev pub has_score : User F → Bool
  has_score u =
      selected methods gs filter u
      && not (int_eq (score_of methods gs filter field_id rule inversed u) (negsuc 0))

  -- The loop of rank adds the users with a score, in their order.
  rank_loop-candidates :
      (heap : ℕ → User F) (list : List ℕ) (contest : List TopItem)
      → Once list
      → (rank_loop methods gs filter field_id rule inversed heap list contest).1
        ≡ contest ++ candidates has_score heap list
  unfolding rank_loop rank_step candidates add_item
  rank_loop-candidates heap [] contest once = sym (append-nil contest)
  rank_loop-candidates heap (a ∷ list) contest once =
      elim (Bool-cases (selected methods gs filter (heap a))) [
        | inr passed_over ↦
            rw (passed_over, rank_step, rank_loop) (rank_loop-candidates heap list contest once.1)
        | inl chosen ↦
            let u = scored methods gs filter field_id rule inversed (heap a) in
            let same = candidates-store has_score heap a u list once.0 in
            elim (Bool-cases
              (int_eq (score_of methods gs filter field_id rule inversed (heap a)) (negsuc 0))) [
                | inl no_score ↦
                    rw (chosen, rank_step, rank_loop, no_score)
                      (rank_loop-candidates (store heap a u) list contest once.1
                        ∙ ap (λ (l : List TopItem). contest ++ l) same)
                | inr score ↦
                    rw (chosen, rank_step, rank_loop, score)
                      (rank_loop-candidates (store heap a u) list (contest ++ (item heap a ∷ []))
                          once.1
                        ∙ ap (λ (l : List TopItem). (contest ++ (item heap a ∷ [])) ++ l) same
                        ∙ append_assoc contest (item heap a ∷ []) (candidates has_score heap list))
              ]
      ]

  -- Over a list of users without repetition rank leaves in the contest every user that is there,
  -- passes the filter and has a score other than -1, in the stable order by decreasing score (of
  -- the negated scores, negated back, if inversed), each with the score that its field had before
  -- the run.
  pub rank-candidates :
      (heap : ℕ → User F) (list : List ℕ)
      → Once list
      → (rank methods gs filter field_id rule inversed heap list).1
        ≡ shown methods gs filter field_id rule inversed (sort (candidates has_score heap list))
  unfolding rank
  rank-candidates heap list once =
      ap (λ (l : List TopItem). shown methods gs filter field_id rule inversed (sort l))
        (rank_loop-candidates heap list [] once)

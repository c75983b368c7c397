-- ===== src/Report/Totals.antt =====
-- The loop of VectorUsers::report of src/users.cc over a list of users.
use topy.Prelude.{
  ℕ, ◌+◌, ◌%◌, ◌^◌, ◌<◌, ◌≡◌, refl, sym, ap, ◌∙◌, inl, inr, Bool, false, List, [], ◌∷◌, ℤ, residue,
  ◌==◌, length, if◌then◌else◌, arith, Bool-cases,
}
use topy.Events
use topy.Events.{FieldEvents}
use topy.Field.{
  Field, field_events, field_marks, field_int, field_ulog, field_log, field_timestamp, no_field,
}
use topy.Filter.{Filter}
use topy.Groups.{Groups}
use topy.Report.{
  Report, report_int, ReportFieldInt, add_int, report_add, chosen, report_step, report_loop,
}
use topy.StatsVector.Sums.Each.{residue_sum, sum_of}
use topy.Timer.{Timer}
use topy.Users.{User, store}
use topy.Users.Best.{Once}
use topy.Users.Lists.{occurrences}

module _ (timer : Timer) (gs : Groups) (filter : Filter) (field_id : ℕ) where
  -- The fields, as they are at first, of the users that the report is over.
  unfoldable pub reported : (ℕ → User Field) → List ℕ → List Field
  reported heap [] = []
  reported heap (a ∷ list) =
      let rest = reported heap list in
      if chosen timer gs filter field_id (heap a) then (heap a).field field_id ∷ rest else rest

  unfoldable pub add_all : Report → List Field → Report
  add_all r [] = r
  add_all r (f ∷ fs) = add_all (report_add timer r f).0 fs

  reported-store :
      (heap : ℕ → User Field) (x : ℕ) (u : User Field) (list : List ℕ)
      → occurrences x list ≡ 0
      → reported (store heap x u) list ≡ reported heap list
  unfolding reported
  reported-store heap x u [] none_there = refl
  reported-store heap x u (a ∷ list) none_there = elim (Bool-cases (x == a)) [
    | inl here ↦ absurd (ground (arith, here, none_there))
    | inr apart ↦
        let other_user : (a == x) ≡ false = ground (arith, apart) in
        let rest = reported-store heap x u list (ground (arith, apart, none_there)) in
        rw (other_user, reported, rest) refl
  ]

  -- The user with the field as the report leaves it.
  abbrev left : User Field → Report → User Field
  left u r = record u {
    field = λ i. if i == field_id then (report_add timer r (u.field field_id)).1 else u.field i;
  }

  report_step_cases :
      (a : ℕ) (heap : ℕ → User Field) (r : Report)
      → report_step timer gs filter field_id a (heap, r) ≡ (
          if chosen timer gs filter field_id (heap a)
          then (store heap a (left (heap a) r), (report_add timer r ((heap a).field field_id)).0)
          else (heap, r))
  unfolding report_step
  report_step_cases a heap r = refl

  abbrev pub run : List ℕ → (ℕ → User Field) × Report → Report
  run list s = (report_loop timer gs filter field_id list s).1

  pub report_loop-add_all :
      (heap : ℕ → User Field) (list : List ℕ) (r : Report)
      → Once list
      → run list (heap, r) ≡ add_all r (reported heap list)
  unfolding report_loop reported add_all
  report_loop-add_all heap [] r once = refl
  report_loop-add_all heap (a ∷ list) r once =
      let next = (report_add timer r ((heap a).field field_id)).0 in
      let user = left (heap a) r in
      ap (run list) (report_step_cases a heap r)
      ∙ elim (Bool-cases (chosen timer gs filter field_id (heap a))) [
        | inl there ↦
            ap (λ (b : Bool). run list (if b then (store heap a user, next) else (heap, r))) there
            ∙ report_loop-add_all (store heap a user) list next once.1
            ∙ ap (add_all next) (reported-store heap a user list once.0)
            ∙ ap
                (λ (b : Bool).
                  add_all r (
                    if b then (heap a).field field_id ∷ reported heap list else reported heap list))
                (sym there)
        | inr absent ↦
            ap (λ (b : Bool). run list (if b then (store heap a user, next) else (heap, r))) absent
            ∙ report_loop-add_all heap list r once.1
            ∙ ap
                (λ (b : Bool).
                  add_all r (
                    if b then (heap a).field field_id ∷ reported heap list else reported heap list))
                (sym absent)
      ]

-- The values of the fields of FieldInt, and the counters, brought up to date, of those of FieldEvents.
unfoldable pub values : List Field → List ℤ
values [] = []
values (field_int f ∷ fs) = f.value ∷ values fs
values (_ ∷ fs) = values fs

unfoldable pub counters : Timer → List Field → List FieldEvents
counters timer [] = []
counters timer (field_events e ∷ fs) = Events.update timer e ∷ counters timer fs
counters timer (_ ∷ fs) = counters timer fs

abbrev pub itself : ℤ → ℤ
itself z = z

-- Totals with the values added, one by one.
abbrev pub add_values : ReportFieldInt → List ℤ → ReportFieldInt
add_values r l = record {
  count = (r.count + length l) % 2 ^ 32;
  total = (r.total + residue (2 ^ 32) (sum_of itself l)) % 2 ^ 32;
}

module _ (timer : Timer) (gs : Groups) (filter : Filter) (field_id : ℕ) where
  pub add_all-values :
      (r : ReportFieldInt) (fs : List Field)
      → r.count < 2 ^ 32
      → r.total < 2 ^ 32
      → add_all timer gs filter field_id (report_int r) fs ≡ report_int (add_values r (values fs))
  unfolding add_all values report_add add_int
  add_all-values r [] c t = ap report_int (ground (arith, c, t))
  add_all-values r (field_int f ∷ fs) c t =
      add_all-values (add_int f r) fs (omega arith) (omega arith)
      ∙ ap report_int (ground (arith, residue_sum f.value (sum_of itself (values fs))))
  add_all-values r (field_events f ∷ fs) c t = add_all-values r fs c t
  add_all-values r (field_marks f ∷ fs) c t = add_all-values r fs c t
  add_all-values r (field_ulog f ∷ fs) c t = add_all-values r fs c t
  add_all-values r (field_log f ∷ fs) c t = add_all-values r fs c t
  add_all-values r (field_timestamp f ∷ fs) c t = add_all-values r fs c t
  add_all-values r (no_field ∷ fs) c t = add_all-values r fs c t

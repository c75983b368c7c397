-- ===== src/Logs/Unique.antt =====
-- `insert unique` and del of FieldUlog and FieldLog of src/field.cc.
use native.Mathlib.Decide.{dec_lt}
use topy.Prelude.{
  ℕ, zero, suc, ◌+◌, ◌-◌, ◌^◌, ◌≤◌, ◌<◌, min, ◌≡◌, ◌≢◌, refl, sym, ap, ◌∙◌, inl, inr, true, false,
  arith, ℤ, negsuc, residue, leb, if◌then◌else◌, Bool-cases, subst,
}
use topy.StatsVector.Loops.{close_loop_at}
use topy.StatsVector.{StatsVector, cast, del, find, int_eq}
use topy.StatsVector.Increment.{int_eq_iff}
use topy.Logs.Items.{
  IsRoomy, count-push_front, cell-push_front_zero, cell-push_front-suc, Absent, find_cases,
}
use topy.Logs.{LogField, push_front, del_item, insert, insert_query}

-- No two samples in use are equal.
pub record Distinct (v : StatsVector) : Type 0 where
  pub apart : (i j : ℕ) → i < j → j < v.count → v.samples i ≢ v.samples j

count-del : (v : StatsVector) (p : ℕ) → p < v.count → (del v p).0.count ≡ v.count - 1
unfolding del
count-del v p h = ground arith

-- Where cell j of the shortened vector comes from.
abbrev passed : ℕ → ℕ → ℕ
passed p j = if leb p j then j + 1 else j

cell-del :
    (v : StatsVector) (p j : ℕ)
    → p < v.count
    → j < v.count - 1
    → (del v p).0.samples j ≡ v.samples (passed p j)
unfolding del
cell-del v p j h room = ground (arith, close_loop_at (v.count - 1 - p) p v.samples j)

del_beyond : (v : StatsVector) (p : ℕ) → v.count ≤ p → (del v p).0 ≡ v
unfolding del
del_beyond v p h = ground arith

-- The shape that an operation keeps.
del-IsRoomy : (v : StatsVector) (p : ℕ) → IsRoomy v → IsRoomy (del v p).0
unfolding del
del-IsRoomy v p h = ground arith

del-Distinct : (v : StatsVector) (p : ℕ) → p < v.count → Distinct v → Distinct (del v p).0
del-Distinct v p h d = record {
  apart = λ i j a b e.
      let room : j < v.count - 1 = subst (λ c. j < c) (count-del v p h) b in
      d.apart (passed p i) (passed p j) (ground arith) (ground arith)
        (sym (cell-del v p i h (omega arith)) ∙ e ∙ cell-del v p j h room);
}

-- Deleting the only sample that holds x leaves none.
del-Absent :
    (v : StatsVector) (p : ℕ) (x : ℤ)
    → p < v.count
    → v.samples p ≡ x
    → Distinct v
    → Absent (del v p).0.samples 0 (del v p).0.count x
del-Absent v p x h hit d j a b e =
    let room : j < v.count - 1 = subst (λ c. j < c) (count-del v p h) b in
    let same : v.samples (passed p j) ≡ x = sym (cell-del v p j h room) ∙ e in
    elim (dec_lt j p) [
      | yes before ↦ d.apart j p before h (ap v.samples (ground arith) ∙ same ∙ sym hit)
      | no after ↦
          d.apart p (j + 1) (omega arith) (omega arith)
            (hit ∙ sym same ∙ ap v.samples (ground arith))
    ]

push_front-Distinct :
    (v : StatsVector) (n : ℤ)
    → IsRoomy v
    → Distinct v
    → Absent v.samples 0 v.count (cast v.type_s n)
    → Distinct (push_front v n)
push_front-Distinct v n valid d absent = record { apart = go }
  where
    go :
        (i j : ℕ)
        → i < j
        → j < (push_front v n).count
        → (push_front v n).samples i ≢ (push_front v n).samples j
    go zero zero a b e = absurd (omega arith)
    go zero (suc j) a b e =
        let size : suc j < min (v.count + 1) v.len_s =
          subst (λ c. suc j < c) (count-push_front v n valid) b in
        absent j (omega arith) (omega arith) (
          sym (cell-push_front-suc v n j valid (omega arith) (omega arith))
          ∙ sym e
          ∙ cell-push_front_zero v n valid)
    go (suc i) zero a b e = absurd (omega arith)
    go (suc i) (suc j) a b e =
        let size : suc j < min (v.count + 1) v.len_s =
          subst (λ c. suc j < c) (count-push_front v n valid) b in
        d.apart i j (omega arith) (omega arith) (
          sym (cell-push_front-suc v n i valid (omega arith) (omega arith))
          ∙ e
          ∙ cell-push_front-suc v n j valid (omega arith) (omega arith))

-- As many dates as items, in arrays of one length, and an insertion does not wrap the 8-bit counts.
pub record IsLog (f : LogField) : Type 0 where
  pub items_roomy : IsRoomy f.items
  pub dates_roomy : IsRoomy f.dates
  pub paired : f.items.count ≡ f.dates.count
  pub same_len : f.items.len_s ≡ f.dates.len_s

type_s-del : (v : StatsVector) (p : ℕ) → (del v p).0.type_s ≡ v.type_s
unfolding del
type_s-del v p = ground arith

del_both-IsLog :
    (f : LogField) (p : ℕ)
    → IsLog f
    → IsLog (record { items = (del f.items p).0; dates = (del f.dates p).0 })
unfolding del
del_both-IsLog f p h = record {
  items_roomy = del-IsRoomy f.items p h.items_roomy;
  dates_roomy = del-IsRoomy f.dates p h.dates_roomy;
  paired = ground (arith, h.paired);
  same_len = ground (arith, h.same_len);
}

del_item-IsLog : (n : ℤ) (f : LogField) → IsLog f → IsLog (del_item n f)
unfolding del_item
del_item-IsLog n f h = elim (Bool-cases (int_eq n (negsuc 0))) [
  | inl minus_one ↦ rw minus_one h
  | inr other ↦ rw other (del_both-IsLog f (residue (2 ^ 32) (find f.items n)) h)
]

not_minus_one : (n : ℤ) → n ≢ negsuc 0 → int_eq n (negsuc 0) ≡ false
not_minus_one n other = elim (Bool-cases (int_eq n (negsuc 0))) [
  | inl same ↦ absurd (other (int_eq_iff n (negsuc 0) same))
  | inr e ↦ e
]

-- What del_item leaves of the items: they are distinct, and none is n.
record Without (v w : StatsVector) (n : ℤ) : Type 0 where
  distinct : Distinct w
  absent : Absent w.samples 0 w.count (cast w.type_s n)

del_item-Without :
    (n : ℤ) (f : LogField)
    → n ≢ negsuc 0
    → IsLog f
    → Distinct f.items
    → Without f.items (del_item n f).items n
unfolding del_item
del_item-Without n f other h d = rw (not_minus_one n other) (elim (find_cases f.items n) [
  | inl (e, absent) ↦
      let none_there : (del f.items (residue (2 ^ 32) (find f.items n))).0 ≡ f.items =
        del_beyond f.items _ (rw e (omega (arith, h.items_roomy.within, h.items_roomy.short))) in
      rw none_there (record { distinct = d; absent = absent })
  | inr (p, e, at) ↦
      let here : residue (2 ^ 32) (find f.items n) ≡ p =
        rw e (omega (arith, at.upper, h.items_roomy.within, h.items_roomy.short)) in
      rw here (record {
        distinct = del-Distinct f.items p at.upper d;
        absent = rw (type_s-del f.items p) (del-Absent f.items p _ at.upper at.hit d);
      })
])

type_s-del_item : (n : ℤ) (f : LogField) → (del_item n f).items.type_s ≡ f.items.type_s
unfolding del_item
type_s-del_item n f = ground (arith, type_s-del f.items (residue (2 ^ 32) (find f.items n)))

-- After `insert unique n`, n being other than -1, the items of a FieldUlog, or of a FieldLog with
-- at most 254 items, are distinct if they were before, and the first is n, converted to the type of
-- the samples; the field must have as many dates as items, in arrays of one length, not 0, that
-- hold them.
pub insert_unique-Distinct :
    (n date : ℤ) (f : LogField)
    → n ≢ negsuc 0
    → IsLog f
    → Distinct f.items
    → let g = insert_query true n date f in
      (Distinct g.items) × (g.items.samples 0 ≡ cast f.items.type_s n)
unfolding insert_query insert
insert_unique-Distinct n date f other h d =
    let w = del_item-Without n f other h d in
    let valid = (del_item-IsLog n f h).items_roomy in
    (
      push_front-Distinct (del_item n f).items n valid w.distinct w.absent,
      cell-push_front_zero (del_item n f).items n valid ∙ ap (λ t. cast t n) (type_s-del_item n f),
    )

items-minus_one :
    (date : ℤ) (f : LogField)
    → (insert_query true (negsuc 0) date f).items ≡ push_front f.items (negsuc 0)
unfolding insert_query insert del_item int_eq
items-minus_one date f = refl

-- `insert unique -1` on a FieldUlog, or on a FieldLog with at most 254 items, with room for two
-- items and a first item of the same value as -1, leaves items that are not distinct; the field
-- must have as many dates as items, in arrays of one length that hold them.
pub insert_unique_minus_one :
    (date : ℤ) (f : LogField)
    → IsLog f
    → 0 < f.items.count
    → 1 < f.items.len_s
    → f.items.samples 0 ≡ cast f.items.type_s (negsuc 0)
    → ¬ Distinct (insert_query true (negsuc 0) date f).items
insert_unique_minus_one date f h some_item room first d =
    let size = count-push_front f.items (negsuc 0) h.items_roomy in
    (subst Distinct (items-minus_one date f) d).apart 0 1 (omega arith) (omega (arith, size)) (
      cell-push_front_zero f.items (negsuc 0) h.items_roomy
      ∙ sym first
      ∙ sym (cell-push_front-suc f.items (negsuc 0) 0 h.items_roomy some_item room))

-- ===== src/Logs/Items.antt =====
-- How `insert` of FieldUlog and FieldLog and `find` of StatsVector work on the samples.
use topy.Prelude.{
  ℕ, zero, suc, ◌+◌, ◌-◌, ◌≤◌, ◌<◌, ◌^◌, min, ◌≡◌, ◌≢◌, refl, sym, ap, ◌∙◌, ◌⊎◌, inl, inr, true,
  false, arith, ℤ, pos, negsuc, Bool-cases,
}
use native.Mathlib.Decide.{dec_lt}
use topy.StatsVector.Loops.{Cells, shift_loop, shift_loop_at, fill_loop_at}
use topy.StatsVector.{StatsVector, cast, set_sample, translate, find, find_loop, int_eq}
use topy.StatsVector.Increment.{int_eq_iff, int_eq_refl}
use topy.Logs.{push_front}

-- A vector whose 8-bit count does not wrap when an item is put in front: one of fewer than 256 samples, or a
-- longer one with at most 254 in use.
pub record IsRoomy (v : StatsVector) : Type 0 where
  pub within : v.count ≤ v.len_s
  pub short : min (v.count + 1) v.len_s < 2 ^ 8
  pub some_room : 0 < v.len_s

pub count-push_front :
    (v : StatsVector) (n : ℤ) → IsRoomy v → (push_front v n).count ≡ min (v.count + 1) v.len_s
unfolding push_front set_sample translate
count-push_front v n h = ground arith

pub cell-push_front_zero :
    (v : StatsVector) (n : ℤ) → IsRoomy v → (push_front v n).samples 0 ≡ cast v.type_s n
unfolding push_front set_sample translate
cell-push_front_zero v n h = ground arith

pub cell-push_front-suc :
    (v : StatsVector) (n : ℤ) (j : ℕ)
    → IsRoomy v
    → j < v.count
    → suc j < v.len_s
    → (push_front v n).samples (suc j) ≡ v.samples j
unfolding push_front set_sample translate
cell-push_front-suc v n j h held room = ground (
  arith,
  fill_loop_at (min 1 v.len_s) 0
      (shift_loop (min 1 v.len_s) (min v.count (v.len_s - min 1 v.len_s)) v.samples) (suc j),
  shift_loop_at (min 1 v.len_s) (min v.count (v.len_s - min 1 v.len_s)) v.samples (suc j),
)

-- What `find` answers: the first cell that holds the item, or -1 where none does.
pub record FoundAt (c : Cells) (from to : ℕ) (x : ℤ) (p : ℕ) : Type 0 where
  pub lower : from ≤ p
  pub upper : p < to
  pub hit : c p ≡ x

abbrev pub Absent : Cells → ℕ → ℕ → ℤ → Type 0
Absent c from to x = (j : ℕ) → from ≤ j → j < to → c j ≢ x

Absent-cons :
    (c : Cells) (i k : ℕ) (x : ℤ)
    → int_eq (c i) x ≡ false
    → Absent c (i + 1) (i + 1 + k) x
    → Absent c i (i + suc k) x
Absent-cons c i k x other later j a b e = elim (dec_lt i j) [
  | yes after ↦ later j (omega arith) (omega arith) e
  | no before ↦
      let here : j ≡ i = omega arith in
      let same : c i ≡ x = ap c (sym here) ∙ e in
      let twice : int_eq (c i) x ≡ true = rw same (int_eq_refl x) in cc (other, twice)
]

find_loop_cases :
    (k i : ℕ) (x : ℤ) (c : Cells)
    → ((find_loop k i x c ≡ negsuc 0) × Absent c i (i + k) x)
      ⊎ ((p : ℕ) × (find_loop k i x c ≡ pos p) × FoundAt c i (i + k) x p)
unfolding find_loop
find_loop_cases zero i x c = inl (refl, λ j a b. absurd (omega arith))
find_loop_cases (suc k) i x c = elim (Bool-cases (int_eq (c i) x)) [
  | inl same ↦ rw same (
      inr (
        i,
        refl,
        record { lower = omega arith; upper = omega arith; hit = int_eq_iff (c i) x same },
      ))
  | inr other ↦ rw other (elim (find_loop_cases k (i + 1) x c) [
    | inl (e, none_later) ↦ inl (e, Absent-cons c i k x other none_later)
    | inr (p, e, f) ↦ inr (
      p,
      e,
      record { lower = omega (arith, f.lower); upper = omega (arith, f.upper); hit = f.hit },
    )
  ])
]

-- StatsVector::find: the position of the first sample in use that equals n as a value of the type.
pub find_cases :
    (v : StatsVector) (n : ℤ)
    → ((find v n ≡ negsuc 0) × Absent v.samples 0 v.count (cast v.type_s n))
      ⊎ ((p : ℕ) × (find v n ≡ pos p) × FoundAt v.samples 0 v.count (cast v.type_s n) p)
unfolding find
find_cases v n = elim (find_loop_cases v.count 0 (cast v.type_s n) v.samples) [
  | inl (e, absent) ↦ inl (e, λ j a b. absent j a (omega arith))
  | inr (p, e, f) ↦
      inr (p, e, record { lower = f.lower; upper = omega (arith, f.upper); hit = f.hit })
]

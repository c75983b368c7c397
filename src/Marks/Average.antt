-- ===== src/Marks/Average.antt =====
-- FieldMarks::add and FieldMarks::score of src/field.cc.
use topy.Prelude.{
  ℕ, suc, ◌+◌, ◌*◌, ◌-◌, ◌^◌, ◌<◌, ◌≡◌, refl, ap, ◌∙◌, ◌⊎◌, inl, inr, true, false, some, arith, ℤ,
  pos, negsuc, ◌+ℤ◌, negate, wrap32, if◌then◌else◌,
}
use topy.Events.{inc_or_expand, advance}
use topy.Events.Expand.{Counts, inc_or_expand-Counted}
use topy.Marks.{
  FieldMarks, marks_len, update, add, divide, thousandfold, signed_ratio, magnitude, is_negative,
  average, counted, kind_score,
}
use topy.Marks.Signed.{IsShort, short-IsInt, inc_or_expand-Added}
use topy.StatsVector.{
  uint8_t, uint16_t, uint32_t, int8_t, int16_t, int32_t, StatsVector, opened, get_sample, int_eq,
}
use topy.StatsVector.Increment.{sum_one}
use topy.StatsVector.Loops.{Cells}
use topy.Timer.{Timer}

advance_same : (m : ℕ) (v : StatsVector) → advance (pos m) (pos m) v ≡ v
unfolding advance int_eq ◌+ℤ◌
advance_same m v = ground arith

-- The quotient of a sum by a number of marks: the sign, and the magnitudes divided.
divide-thousandfold :
    (z : ℤ) (d : ℕ)
    → IsShort z
    → divide (thousandfold z) (pos (suc d))
      ≡ some (signed_ratio (is_negative z) (magnitude z * 1000) (suc d))
unfolding divide
divide-thousandfold (pos n) d h =
    let whole : wrap32 (pos (n * 1000)) ≡ pos (n * 1000) = ground (arith, h) in rw whole refl
divide-thousandfold (negsuc n) d h =
    let whole : wrap32 (negate (pos (suc n * 1000))) ≡ negsuc (suc n * 1000 - 1) =
      ground (arith, h) in
    rw whole
      (ap (λ (m : ℕ). some (signed_ratio true m (suc d))) (same (suc n * 1000) (omega arith)))
  where
    same : (m : ℕ) → 0 < m → suc (m - 1) ≡ m
    same m h = omega arith

-- A field that was brought up to date this month, with sums that the samples hold.
pub record IsCurrent (timer : Timer) (f : FieldMarks) (s : ℤ) (d : ℕ) : Type 0 where
  pub month : f.month ≡ pos timer.month
  pub num_signed : f.months_num.is_unsigned ≡ false
  pub num_short : (i : ℕ) → IsShort (get_sample f.months_num i)
  pub num_first : (opened f.months_num).samples 0 ≡ s
  pub num_type : (f.months_num.type_s ≡ int8_t) ⊎ (f.months_num.type_s ≡ int16_t)
  pub denom_unsigned : f.months_denom.is_unsigned ≡ true
  pub denom_counts : Counts (2 ^ 16) f.months_denom
  pub denom_first : (opened f.months_denom).samples 0 ≡ pos d
  pub denom_type : (f.months_denom.type_s ≡ uint8_t) ⊎ (f.months_denom.type_s ≡ uint16_t)

typed_sum : {A B : Type 0} → {C : Type 0} → A ⊎ B → C → (A × C) ⊎ B
typed_sum (inl a) c = inl (a, c)
typed_sum (inr b) c = inr b

one_more : (d : ℕ) → pos d +ℤ pos 1 ≡ pos (d + 1)
unfolding ◌+ℤ◌
one_more d = ground arith

not_zero : (d : ℕ) → int_eq (pos (d + 1)) (pos 0) ≡ false
unfolding int_eq
not_zero d = ground arith

quotient :
    (z : ℤ) (d : ℕ)
    → IsShort z
    → (if int_eq (pos (d + 1)) (pos 0) then some (pos 0) else divide (thousandfold z) (pos (d + 1)))
      ≡ some (signed_ratio (is_negative z) (magnitude z * 1000) (d + 1))
quotient z d room =
    let later : d + 1 ≡ suc d = omega arith in rw (not_zero d, later) (divide-thousandfold z d room)

module _ (memory : Cells) (timer : Timer) (f : FieldMarks) (s n z : ℤ) (d : ℕ)
    (current : IsCurrent timer f s d) (start : IsShort s) (total : s +ℤ n ≡ z) (room : IsShort z)
    (few : d + 1 < 2 ^ 16) where
  num-add : get_sample (add memory timer n f).months_num 0 ≡ z
  unfolding add update
  num-add =
      ap
        (λ (v : StatsVector).
          get_sample (inc_or_expand memory v marks_len n int16_t int32_t false) 0)
        (ap (λ (m : ℤ). advance m (pos timer.month) f.months_num) current.month
          ∙ advance_same timer.month f.months_num)
      ∙ (inc_or_expand-Added memory f.months_num marks_len s n z current.num_signed
          current.num_short current.num_first start total (short-IsInt z room)
          (typed_sum current.num_type room)).newest

  denom-add : get_sample (add memory timer n f).months_denom 0 ≡ pos (d + 1)
  unfolding add update
  denom-add =
      ap
        (λ (v : StatsVector).
          get_sample (inc_or_expand memory v marks_len (pos 1) uint16_t uint32_t true) 0)
        (ap (λ (m : ℤ). advance m (pos timer.month) f.months_denom) current.month
          ∙ advance_same timer.month f.months_denom)
      ∙ (inc_or_expand-Counted memory f.months_denom marks_len d (pos 1) (pos (d + 1))
          current.denom_unsigned current.denom_counts (omega (arith, few)) current.denom_first
          (one_more d) (omega (arith, few), omega arith) (typed_sum current.denom_type few)).newest

  -- A mark n, added to a FieldMarks that was brought up to date in the same month, raises the rule
  -- last::count by one and makes last::average the new sum of the marks of the month times 1000
  -- divided by their new number, rounded towards 0, with the samples widened where the sum does not
  -- fit; the sums before and after and every sample of the sums must be values of int16_t, the
  -- vectors be signed and unsigned bytes or 16-bit samples, and the counts stay below 2^16.
  pub kind_score-add :
      (kind_score counted (pos 1) (add memory timer n f) ≡ some (pos (d + 1)))
      × (kind_score average (pos 1) (add memory timer n f)
          ≡ some (signed_ratio (is_negative z) (magnitude z * 1000) (d + 1)))
  unfolding kind_score
  kind_score-add = (
    ap some (sum_one (add memory timer n f).months_denom ∙ denom-add),
    rw
        (
          sum_one (add memory timer n f).months_denom,
          sum_one (add memory timer n f).months_num,
          num-add,
          denom-add,
        )
        (quotient z d room),
  )

-- ===== src/StatsVector/Increment.antt =====
-- The first sample of StatsVector of src/field.cc under `inc`.
use topy.Prelude.{
  ℕ, zero, suc, min, ◌+◌, ◌%◌, ◌^◌, ◌≤◌, ◌<◌, ◌≡◌, refl, ap, subst, ◌∙◌, ◌⊎◌, inl, inr, true, false,
  arith, ℤ, pos, negsuc, ◌+ℤ◌, pos_part, neg_part, wrap32, to_int32, residue, ltb,
}
use topy.StatsVector.{
  SampleType, uint8_t, uint16_t, uint32_t, uint64_t, int8_t, int16_t, int32_t, int64_t, StatsVector,
  modulus, is_signed, cast, get_sample, inc, opened, store_first, int_eq, sum, sum_loop,
}

-- MAX(0, z)
abbrev pub clip : ℤ → ℤ
clip (pos n) = pos n
clip (negsuc n) = pos 0

-- The values of `int`.
abbrev pub IsInt : ℤ → Type 0
IsInt z = (pos_part z < 2 ^ 31) × (neg_part z ≤ 2 ^ 31)

pub wrap32_int : (z : ℤ) → IsInt z → wrap32 z ≡ z
wrap32_int (pos n) h = ground arith
wrap32_int (negsuc n) h = ground arith

pub cast_fits :
    (t : SampleType) (k : ℕ) → is_signed t ≡ false → k < modulus t → cast t (pos k) ≡ pos k
unfolding cast
cast_fits uint8_t k e h = ground arith
cast_fits uint16_t k e h = ground arith
cast_fits uint32_t k e h = ground arith
cast_fits uint64_t k e h = ground arith
cast_fits int8_t k e h = cc
cast_fits int16_t k e h = cc
cast_fits int32_t k e h = cc
cast_fits int64_t k e h = cc

pub int_eq_iff : (a b : ℤ) → int_eq a b ≡ true → a ≡ b
unfolding int_eq
int_eq_iff (pos a) (pos b) h = ground arith
int_eq_iff (pos a) (negsuc b) h = ground arith
int_eq_iff (negsuc a) (pos b) h = ground arith
int_eq_iff (negsuc a) (negsuc b) h = ground arith

pub int_eq_refl : (a : ℤ) → int_eq a a ≡ true
unfolding int_eq
int_eq_refl a = ground arith

pub get_sample-opened : (v : StatsVector) (i : ℕ) → get_sample (opened v) i ≡ get_sample v i
unfolding get_sample opened
get_sample-opened v i = ground arith

pub count-opened : (v : StatsVector) → 0 < (opened v).count
unfolding opened
count-opened v = ground arith

pub opened-shape :
    (v : StatsVector) → ((opened v).type_s ≡ v.type_s) × ((opened v).is_unsigned ≡ v.is_unsigned)
unfolding opened
opened-shape v = ground arith

-- Both branches of store_first on an unsigned type.
store_first_fits :
    (w : StatsVector) (z : ℤ)
    → w.is_unsigned ≡ true
    → is_signed w.type_s ≡ false
    → 0 < w.count
    → IsInt z
    → pos_part z < modulus w.type_s
    → ((store_first w z).1 ≡ true) × (get_sample (store_first w z).0 0 ≡ clip z)
unfolding store_first get_sample
store_first_fits w (pos k) u p c int room =
    ground (arith, cast_fits w.type_s k p room, wrap32_int (pos k) int, int_eq_refl (pos k))
store_first_fits w (negsuc k) u p c int room = ground arith

cast_overflows :
    (t : SampleType) (k : ℕ)
    → is_signed t ≡ false
    → k < 2 ^ 31
    → modulus t ≤ k
    → int_eq (pos k) (wrap32 (cast t (pos k))) ≡ false
unfolding cast int_eq
cast_overflows uint8_t k e i h = ground arith
cast_overflows uint16_t k e i h = ground arith
cast_overflows uint32_t k e i h = absurd (omega arith)
cast_overflows uint64_t k e i h = absurd (omega arith)
cast_overflows int8_t k e i h = cc
cast_overflows int16_t k e i h = cc
cast_overflows int32_t k e i h = cc
cast_overflows int64_t k e i h = cc

store_first_refused :
    (w : StatsVector) (k : ℕ)
    → is_signed w.type_s ≡ false
    → k < 2 ^ 31
    → modulus w.type_s ≤ k
    → (store_first w (pos k)) ≡ (w, false)
unfolding store_first
store_first_refused w k p int full = rw (cast_overflows w.type_s k p int full) (ground arith)

pub store_first_rest :
    (w : StatsVector) (z : ℤ) (i : ℕ) → 0 < i → get_sample (store_first w z).0 i ≡ get_sample w i
unfolding store_first get_sample
store_first_rest w z i h = ground arith

-- `inc` of an unsigned vector whose first sample is s and whose sum with n is z, an int.
module _ (v : StatsVector) (s : ℕ) (n z : ℤ) (unsigned : v.is_unsigned ≡ true)
    (plain : is_signed v.type_s ≡ false) (first : (opened v).samples 0 ≡ pos s)
    (total : pos s +ℤ n ≡ z) (int : IsInt z) where
  inc_total : inc v n ≡ store_first (opened v) z
  unfolding inc
  inc_total = rw (first, total, wrap32_int z int)

  -- A sum that fits the type is stored, cut at 0.
  pub inc_fits :
      pos_part z < modulus v.type_s → ((inc v n).1 ≡ true) × (get_sample (inc v n).0 0 ≡ clip z)
  inc_fits room = rw inc_total (
      store_first_fits (opened v) z ((opened-shape v).1 ∙ unsigned) (rw (opened-shape v).0 plain)
        (count-opened v) int (rw (opened-shape v).0 room))

  -- A sum that does not fit is refused, and no sample is changed.
  pub inc_refused : (k : ℕ) → z ≡ pos k → modulus v.type_s ≤ k → inc v n ≡ (opened v, false)
  inc_refused k e full =
      rw (inc_total, e)
        (store_first_refused (opened v) k (rw (opened-shape v).0 plain)
          (subst (λ u. pos_part u < 2 ^ 31) e int.0) (rw (opened-shape v).0 full))

-- The other samples stay, whatever the outcome.
pub inc_rest : (v : StatsVector) (n : ℤ) (i : ℕ) → 0 < i → get_sample (inc v n).0 i ≡ get_sample v i
unfolding inc
inc_rest v n i h =
    store_first_rest (opened v) (wrap32 ((opened v).samples 0 +ℤ n)) i h ∙ get_sample-opened v i

-- The sum of one sample is that sample.
pub sum_one : (v : StatsVector) → sum v (pos 1) ≡ get_sample v 0
unfolding sum sum_loop get_sample
sum_one v = elim (count_cases v.count) [
  | inl none ↦ rw none refl
  | inr (k, more) ↦ rw more (
      let one : min 1 (suc k) ≡ 1 = ground arith in
      let some_there : ltb 0 (suc k) ≡ true = ground arith in
      rw (one, some_there)
        (ap to_int32 (whole (residue (2 ^ 32) (v.samples 0)) (residue_small (v.samples 0)))))
]
  where
    count_cases : (n : ℕ) → (n ≡ 0) ⊎ ((k : ℕ) × (n ≡ suc k))
    count_cases zero = inl refl
    count_cases (suc k) = inr (k, refl)

    residue_small : (z : ℤ) → residue (2 ^ 32) z < 2 ^ 32
    residue_small (pos n) = omega arith
    residue_small (negsuc n) = omega arith

    whole : (n : ℕ) → n < 2 ^ 32 → (0 + n) % 2 ^ 32 ≡ n
    whole n h = omega arith

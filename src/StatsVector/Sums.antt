-- ===== src/StatsVector/Sums.antt =====
-- add and count_active of StatsVector of src/field.cc, sample by sample.
pub mod Each
use topy.Prelude.{
  ℕ, zero, suc, ◌+◌, ◌-◌, ◌%◌, ◌/◌, ◌^◌, ◌<◌, ◌≤◌, ◌≡◌, refl, sym, ap, ◌∙◌, ◌⊎◌, inl, inr, Bool,
  true, false, not, ◌&&◌, arith, ℤ, pos, negsuc, ◌+ℤ◌, pos_part, neg_part, residue, to_int32,
  wrap32, ltb, leb, ltb_ℤ, ◌==◌, if◌then◌else◌, Bool-cases, ==_refl, ltb→lt, List, [], ◌∷◌,
}
use topy.StatsVector.{
  SampleType, uint32_t, uint64_t, StatsVector, cast, int_eq, get_sample, grow_to, add_loop, add,
  count_loop, count_active,
}
use topy.StatsVector.Loops.{Cells, write, fill_loop, fill_loop_at}

add_loop_at :
    (n : ℕ) (t : SampleType) (src : StatsVector) (c : Cells) (j : ℕ)
    → add_loop n t src c j ≡ (if ltb j n then cast t (c j +ℤ get_sample src j) else c j)
unfolding add_loop
add_loop_at zero t src c j = ground arith
add_loop_at (suc n) t src c j = elim (Bool-cases (j == n)) [
  | inl here ↦
      let same : j ≡ n = ground (arith, here) in
      let last : ltb n (suc n) ≡ true = ground arith in
      rw same (
        rw (==_refl n, last)
          (ap (λ (x : ℤ). cast t (x +ℤ get_sample src n))
            (add_loop_at n t src c n
              ∙ ap (λ (b : Bool). if b then cast t (c n +ℤ get_sample src n) else c n)
                  (not_below n))))
  | inr other ↦
      let next : ltb j (suc n) ≡ ltb j n = ground (arith, other) in
      rw (other, next) (add_loop_at n t src c j)
]
  where
    not_below : (n : ℕ) → ltb n n ≡ false
    not_below n = ground arith

count_loop_at :
    (n : ℕ) (t : SampleType) (src : StatsVector) (c : Cells) (j : ℕ)
    → count_loop n t src c j
      ≡ (if ltb j n && not (int_eq (get_sample src j) (pos 0)) then cast t (c j +ℤ pos 1) else c j)
unfolding count_loop
count_loop_at zero t src c j = ground arith
count_loop_at (suc n) t src c j = elim (Bool-cases (int_eq (get_sample src n) (pos 0))) [
  | inl idle ↦ rw idle (count_loop_at n t src c j ∙ passed j (Bool-cases (j == n)) idle)
  | inr active ↦ elim (Bool-cases (j == n)) [
    | inl here ↦
        let same : j ≡ n = ground (arith, here) in
        let last : ltb n (suc n) ≡ true = ground arith in
        rw same (
          rw (active, ==_refl n, last)
            (ap (λ (x : ℤ). cast t (x +ℤ pos 1)) (count_loop_at n t src c n ∙ untouched n)))
    | inr other ↦
        let next : ltb j (suc n) ≡ ltb j n = ground (arith, other) in
        rw (active, other, next) (count_loop_at n t src c j)
  ]
]
  where
    not_below : (n : ℕ) → ltb n n ≡ false
    not_below n = ground arith

    untouched :
        (n : ℕ)
        → (if ltb n n && not (int_eq (get_sample src n) (pos 0))
            then cast t (c n +ℤ pos 1)
            else c n)
          ≡ c n
    untouched n = rw (not_below n) refl

    passed :
        (j : ℕ)
        → ((j == n) ≡ true) ⊎ ((j == n) ≡ false)
        → int_eq (get_sample src n) (pos 0) ≡ true
        → (if ltb j n && not (int_eq (get_sample src j) (pos 0))
            then cast t (c j +ℤ pos 1)
            else c j)
          ≡ (if ltb j (suc n) && not (int_eq (get_sample src j) (pos 0))
              then cast t (c j +ℤ pos 1)
              else c j)
    passed j (inl here) idle =
        let same : j ≡ n = ground (arith, here) in rw same (rw idle (ground arith))
    passed j (inr other) idle =
        let next : ltb j (suc n) ≡ ltb j n = ground (arith, other) in rw next refl

-- A sum of 64 bits, seen as an int.
wrap32_sum : (x g : ℤ) → wrap32 (cast uint64_t (x +ℤ g)) ≡ wrap32 (wrap32 x +ℤ g)
unfolding cast ◌+ℤ◌
wrap32_sum (pos a) (pos b) = ground arith
wrap32_sum (pos a) (negsuc b) = ground arith
wrap32_sum (negsuc a) (pos b) = ground arith
wrap32_sum (negsuc a) (negsuc b) = ground arith

-- The sum of an empty sample and another, and of samples that are out of both vectors.
wrap32-get_sample : (v : StatsVector) (i : ℕ) → wrap32 (get_sample v i) ≡ get_sample v i
unfolding get_sample
wrap32-get_sample v i = ground (arith, wrap32_twice (v.samples i))
  where
    wrap32_twice : (x : ℤ) → wrap32 (wrap32 x) ≡ wrap32 x
    wrap32_twice (pos n) = ground arith
    wrap32_twice (negsuc n) = ground arith

grow_to_at :
    (v : StatsVector) (size i : ℕ)
    → ((grow_to v size).samples i ≡ (if leb v.count i && ltb i size then pos 0 else v.samples i))
      × ((grow_to v size).type_s ≡ v.type_s)
      × ((grow_to v size).count ≡ (if ltb v.count size then size else v.count))
unfolding grow_to
grow_to_at v size i = elim (Bool-cases (ltb v.count size)) [
  | inl grows ↦
      rw grows
        (fill_loop_at (size - v.count) v.count v.samples i ∙ ground (arith, grows), refl, refl)
  | inr stays ↦ rw stays (ground (arith, stays), refl, refl)
]

seen_grow_to :
    (v : StatsVector) (size i : ℕ) → i < size → wrap32 ((grow_to v size).samples i) ≡ get_sample v i
unfolding get_sample
seen_grow_to v size i h = ap wrap32 (grow_to_at v size i).0 ∙ elim (Bool-cases (ltb i v.count)) [
  | inl low ↦
      let old : (leb v.count i && ltb i size) ≡ false = ground (arith, low) in rw (low, old) refl
  | inr high ↦
      let new : (leb v.count i && ltb i size) ≡ true = ground (arith, high, h) in
      rw (high, new) refl
]

beyond_grow_to :
    (v : StatsVector) (size i : ℕ)
    → size ≤ i
    → ((grow_to v size).samples i ≡ v.samples i) × (ltb i (grow_to v size).count ≡ ltb i v.count)
beyond_grow_to v size i h =
    let old : (leb v.count i && ltb i size) ≡ false = ground (arith, h) in
    (
      (grow_to_at v size i).0 ∙ ap (λ (b : Bool). if b then pos 0 else v.samples i) old,
      ap (ltb i) (grow_to_at v size i).2 ∙ ground (arith, h),
    )

within_grow_to : (v : StatsVector) (size i : ℕ) → i < size → ltb i (grow_to v size).count ≡ true
within_grow_to v size i h = ap (ltb i) (grow_to_at v size i).2 ∙ ground (arith, h)

plus_zero : (z : ℤ) → z +ℤ pos 0 ≡ z
unfolding ◌+ℤ◌
plus_zero (pos n) = ground arith
plus_zero (negsuc n) = ground arith

get_sample_beyond : (v : StatsVector) (i : ℕ) → v.count ≤ i → get_sample v i ≡ pos 0
unfolding get_sample
get_sample_beyond v i h = ground (arith, h)

-- Every sample of a vector of 64 bits is the sum, as an int.
pub get_sample-add :
    (v src : StatsVector) (i : ℕ)
    → v.type_s ≡ uint64_t
    → get_sample (add v src) i ≡ wrap32 (get_sample v i +ℤ get_sample src i)
unfolding add get_sample
get_sample-add v src i long = elim (Bool-cases (ltb i src.count)) [
  | inl low ↦
      let inside = within_grow_to v src.count i (ltb→lt _ _ low) in
      let long_still : (grow_to v src.count).type_s ≡ uint64_t =
        (grow_to_at v src.count i).1 ∙ long in
      ap (λ (b : Bool). if b then wrap32 ((add v src).samples i) else pos 0) inside
      ∙ ap wrap32
          (add_loop_at src.count (grow_to v src.count).type_s src (grow_to v src.count).samples i)
      ∙ ap
          (λ (b : Bool). wrap32 (
            if b
            then cast (grow_to v src.count).type_s
                ((grow_to v src.count).samples i +ℤ get_sample src i)
            else (grow_to v src.count).samples i))
          low
      ∙ ap
          (λ (t : SampleType).
            wrap32 (cast t ((grow_to v src.count).samples i +ℤ get_sample src i)))
          long_still
      ∙ wrap32_sum ((grow_to v src.count).samples i) (get_sample src i)
      ∙ ap (λ (x : ℤ). wrap32 (x +ℤ get_sample src i)) (seen_grow_to v src.count i (ltb→lt _ _ low))
  | inr high ↦
      let outside = beyond_grow_to v src.count i (ground (arith, high)) in
      ap (λ (b : Bool). if b then wrap32 ((add v src).samples i) else pos 0) outside.1
      ∙ ap (λ (x : ℤ). if ltb i v.count then wrap32 x else pos 0)
          (add_loop_at src.count (grow_to v src.count).type_s src (grow_to v src.count).samples i
            ∙ ap
                (λ (b : Bool).
                  if b
                  then cast (grow_to v src.count).type_s
                      ((grow_to v src.count).samples i +ℤ get_sample src i)
                  else (grow_to v src.count).samples i)
                high
            ∙ outside.0)
      ∙ sym (wrap32-get_sample v i)
      ∙ ap wrap32 (
          sym (
            ap (λ (g : ℤ). get_sample v i +ℤ g) (get_sample_beyond src i (ground (arith, high)))
            ∙ plus_zero (get_sample v i)))
]

-- Whether a sample is active.
abbrev pub active : StatsVector → ℕ → ℤ
active src i = if int_eq (get_sample src i) (pos 0) then pos 0 else pos 1

wrap32_next : (x : ℤ) → wrap32 (cast uint32_t (x +ℤ pos 1)) ≡ wrap32 (wrap32 x +ℤ pos 1)
unfolding cast ◌+ℤ◌
wrap32_next (pos a) = ground arith
wrap32_next (negsuc a) = ground arith

-- A vector of unsigned int, counted up where the other one is active.
pub get_sample-count_active :
    (v src : StatsVector) (i : ℕ)
    → v.type_s ≡ uint32_t
    → get_sample (count_active v src) i ≡ wrap32 (get_sample v i +ℤ active src i)
unfolding count_active get_sample int_eq
get_sample-count_active v src i wide = elim (Bool-cases (ltb i src.count)) [
  | inl low ↦
      let inside = within_grow_to v src.count i (ltb→lt _ _ low) in
      let wide_still : (grow_to v src.count).type_s ≡ uint32_t =
        (grow_to_at v src.count i).1 ∙ wide in
      ap (λ (b : Bool). if b then wrap32 ((count_active v src).samples i) else pos 0) inside
      ∙ ap wrap32
          (count_loop_at src.count (grow_to v src.count).type_s src (grow_to v src.count).samples i)
      ∙ ap
          (λ (b : Bool). wrap32 (
            if b && not (int_eq (get_sample src i) (pos 0))
            then cast (grow_to v src.count).type_s ((grow_to v src.count).samples i +ℤ pos 1)
            else (grow_to v src.count).samples i))
          low
      ∙ ap
          (λ (t : SampleType). wrap32 (
            if not (int_eq (get_sample src i) (pos 0))
            then cast t ((grow_to v src.count).samples i +ℤ pos 1)
            else (grow_to v src.count).samples i))
          wide_still
      ∙ counted (int_eq (get_sample src i) (pos 0)) (seen_grow_to v src.count i (ltb→lt _ _ low))
  | inr high ↦
      let outside = beyond_grow_to v src.count i (ground (arith, high)) in
      ap (λ (b : Bool). if b then wrap32 ((count_active v src).samples i) else pos 0) outside.1
      ∙ ap (λ (x : ℤ). if ltb i v.count then wrap32 x else pos 0)
          (count_loop_at src.count (grow_to v src.count).type_s src (grow_to v src.count).samples i
            ∙ ap
                (λ (b : Bool).
                  if b && not (int_eq (get_sample src i) (pos 0))
                  then cast (grow_to v src.count).type_s ((grow_to v src.count).samples i +ℤ pos 1)
                  else (grow_to v src.count).samples i)
                high
            ∙ outside.0)
      ∙ sym (wrap32-get_sample v i)
      ∙ ap wrap32 (
          sym (
            ap (λ (g : ℤ). get_sample v i +ℤ (if int_eq g (pos 0) then pos 0 else pos 1))
              (get_sample_beyond src i (ground (arith, high)))
            ∙ plus_zero (get_sample v i)))
]
  where
    counted :
        (idle : Bool)
        → wrap32 ((grow_to v src.count).samples i) ≡ get_sample v i
        → wrap32 (
            if not idle
            then cast uint32_t ((grow_to v src.count).samples i +ℤ pos 1)
            else (grow_to v src.count).samples i)
          ≡ wrap32 (get_sample v i +ℤ (if idle then pos 0 else pos 1))
    counted true seen =
        seen ∙ sym (wrap32-get_sample v i) ∙ ap wrap32 (sym (plus_zero (get_sample v i)))
    counted false seen =
        wrap32_next ((grow_to v src.count).samples i) ∙ ap (λ (x : ℤ). wrap32 (x +ℤ pos 1)) seen

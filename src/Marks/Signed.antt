-- ===== src/Marks/Signed.antt =====
-- INC_OR_EXPAND of src/field.cc on the signed vector of the sums of FieldMarks.
use topy.Prelude.{
  ℕ, ◌^◌, ◌≤◌, ◌<◌, ◌≡◌, refl, sym, ap, subst, ◌∙◌, ◌⊎◌, inl, inr, true, false, arith, ℤ, pos,
  negsuc, ◌+ℤ◌, pos_part, neg_part, wrap32, ◌==◌, if◌then◌else◌,
}
use topy.Events.{inc_or_expand, expand}
use topy.Events.Expand.{copy_loop_at}
use topy.StatsVector.{
  SampleType, int8_t, int16_t, int32_t, StatsVector, type_size, cast, get_sample, inc, opened,
  store_first, copy, new_vector, int_eq,
}
use topy.StatsVector.Increment.{
  IsInt, wrap32_int, int_eq_refl, get_sample-opened, count-opened, opened-shape, inc_rest,
}
use topy.StatsVector.Loops.{Cells}

-- The values of int8_t and int16_t.
abbrev pub IsByte : ℤ → Type 0
IsByte z = (pos_part z < 2 ^ 7) × (neg_part z ≤ 2 ^ 7)

abbrev pub IsShort : ℤ → Type 0
IsShort z = (pos_part z < 2 ^ 15) × (neg_part z ≤ 2 ^ 15)

byte_kept : (z : ℤ) → IsByte z → cast int8_t z ≡ z
unfolding cast
byte_kept (pos n) h = ground (arith, h)
byte_kept (negsuc n) h = ground (arith, h)

short_kept : (z : ℤ) → IsShort z → cast int16_t z ≡ z
unfolding cast
short_kept (pos n) h = ground (arith, h)
short_kept (negsuc n) h = ground (arith, h)

int_kept : (z : ℤ) → IsInt z → cast int32_t z ≡ z
unfolding cast
int_kept (pos n) h = ground (arith, h)
int_kept (negsuc n) h = ground (arith, h)

IsByte-lost : (z : ℤ) → IsInt z → (IsByte z) ⊎ (int_eq z (wrap32 (cast int8_t z)) ≡ false)
unfolding cast int_eq
IsByte-lost (pos n) h = ground (arith, h)
IsByte-lost (negsuc n) h = ground (arith, h)

IsShort-lost : (z : ℤ) → IsInt z → (IsShort z) ⊎ (int_eq z (wrap32 (cast int16_t z)) ≡ false)
unfolding cast int_eq
IsShort-lost (pos n) h = ground (arith, h)
IsShort-lost (negsuc n) h = ground (arith, h)

pub short-IsInt : (z : ℤ) → IsShort z → IsInt z
short-IsInt z h = ground (arith, h)

store_first_stored :
    (w : StatsVector) (z : ℤ)
    → w.is_unsigned ≡ false
    → 0 < w.count
    → cast w.type_s z ≡ z
    → IsInt z
    → ((store_first w z).1 ≡ true) × (get_sample (store_first w z).0 0 ≡ z)
unfolding store_first get_sample
store_first_stored w z signed some_sample kept int =
    let same : int_eq z (wrap32 (cast w.type_s z)) ≡ true =
      ap (λ (y : ℤ). int_eq z (wrap32 y)) kept ∙ ap (int_eq z) (wrap32_int z int) ∙ int_eq_refl z in
    ground (arith, same, kept, wrap32_int z int)

store_first_kept :
    (w : StatsVector) (z : ℤ)
    → w.is_unsigned ≡ false
    → int_eq z (wrap32 (cast w.type_s z)) ≡ false
    → store_first w z ≡ (w, false)
unfolding store_first
store_first_kept w z signed lost = rw (signed, lost) refl

module _ (v : StatsVector) (s n z : ℤ) (signed : v.is_unsigned ≡ false)
    (first : (opened v).samples 0 ≡ s) (total : s +ℤ n ≡ z) (int : IsInt z) where
  inc_sum : inc v n ≡ store_first (opened v) z
  unfolding inc
  inc_sum = rw (first, total, wrap32_int z int)

  inc_stored : cast v.type_s z ≡ z → ((inc v n).1 ≡ true) × (get_sample (inc v n).0 0 ≡ z)
  inc_stored kept = rw inc_sum (
      store_first_stored (opened v) z ((opened-shape v).1 ∙ signed) (count-opened v)
        (rw (opened-shape v).0 kept) int)

  inc_kept : int_eq z (wrap32 (cast v.type_s z)) ≡ false → inc v n ≡ (opened v, false)
  inc_kept lost =
      inc_sum
      ∙ store_first_kept (opened v) z ((opened-shape v).1 ∙ signed) (rw (opened-shape v).0 lost)

-- A copy into a type that holds every sample.
module _ (memory : Cells) (size : ℕ) (t : SampleType) (v : StatsVector)
    (kept : (i : ℕ) → wrap32 (cast t (get_sample v i)) ≡ get_sample v i) where
  copied : StatsVector
  copied = copy (new_vector t size false memory) v

  get_sample-copied : (i : ℕ) → get_sample copied i ≡ get_sample v i
  unfolding copied copy new_vector get_sample
  get_sample-copied i = ground (arith, copy_loop_at v.count t v memory i, kept i)

  first-copied : 0 < v.count → (opened copied).samples 0 ≡ cast t (get_sample v 0)
  unfolding copied copy new_vector opened
  first-copied h = ground (arith, copy_loop_at v.count t v memory 0)

  expand-copied : (n : ℤ) → expand memory v size n t false ≡ (inc copied n).0
  unfolding expand copied
  expand-copied n = refl

  expand_stored :
      (s n z : ℤ)
      → get_sample v 0 ≡ s
      → cast t s ≡ s
      → 0 < v.count
      → s +ℤ n ≡ z
      → IsInt z
      → cast t z ≡ z
      → (get_sample (expand memory v size n t false) 0 ≡ z)
        × ((i : ℕ) → 0 < i → get_sample (expand memory v size n t false) i ≡ get_sample v i)
  unfolding copied copy new_vector
  expand_stored s n z e k h sum int room = rw (expand-copied n) (
    (inc_stored copied s n z refl (first-copied h ∙ ap (cast t) e ∙ k) sum int room).1,
    λ i later. inc_rest copied n i later ∙ get_sample-copied i,
  )

-- The sum in the newest sample, and the older samples as they were.
pub record Added (r v : StatsVector) (z : ℤ) : Type 0 where
  pub newest : get_sample r 0 ≡ z
  pub older : (i : ℕ) → 0 < i → get_sample r i ≡ get_sample v i

module _ (memory : Cells) (v : StatsVector) (size : ℕ) (s n z : ℤ) (signed : v.is_unsigned ≡ false)
    (short : (i : ℕ) → IsShort (get_sample v i)) (first : (opened v).samples 0 ≡ s)
    (start : IsShort s) (total : s +ℤ n ≡ z) (int : IsInt z) where
  stored_Added :
      cast v.type_s z ≡ z → Added (inc_or_expand memory v size n int16_t int32_t false) v z
  unfolding inc_or_expand
  stored_Added kept =
      let r = inc_stored v s n z signed first total int kept in
      rw (r.0) (record { newest = r.1; older = λ i h. inc_rest v n i h })

  opened_first : get_sample (opened v) 0 ≡ s
  unfolding get_sample
  opened_first =
      let small : wrap32 s ≡ s = wrap32_int s (short-IsInt s start) in
      ground (arith, count-opened v, first, small)

  expand-Added :
      (t : SampleType)
      → ((y : ℤ) → IsShort y → cast t y ≡ y)
      → cast t z ≡ z
      → Added (expand memory (opened v) size n t false) v z
  expand-Added t keeps kept =
      let r =
        expand_stored memory size t (opened v)
          (λ i.
            let shown : IsShort (get_sample (opened v) i) =
              subst IsShort (sym (get_sample-opened v i)) (short i) in
            ap wrap32 (keeps (get_sample (opened v) i) shown) ∙ wrap32_int _ (short-IsInt _ shown))
          s n z opened_first (keeps s start) (count-opened v) total int kept in
      record { newest = r.0; older = λ i h. r.1 i h ∙ get_sample-opened v i }

  sized :
      (k : ℕ)
      → type_size (opened v).type_s ≡ k
      → inc v n ≡ (opened v, false)
      → inc_or_expand memory v size n int16_t int32_t false ≡ (
          if k == 1
          then expand memory (opened v) size n int16_t false
          else if k == 2
          then expand memory (opened v) size n int32_t false
          else opened v)
  unfolding inc_or_expand
  sized k e refused = rw (refused, e)

  lost_kept :
      (t : SampleType)
      → v.type_s ≡ t
      → int_eq z (wrap32 (cast t z)) ≡ false
      → inc v n ≡ (opened v, false)
  lost_kept t e lost = inc_kept v s n z signed first total int (rw e lost)

  byte_Added :
      v.type_s ≡ int8_t
      → IsShort z
      → Added (inc_or_expand memory v size n int16_t int32_t false) v z
  byte_Added byte room = elim (IsByte-lost z int) [
    | inl fits ↦ stored_Added (rw byte (byte_kept z fits))
    | inr lost ↦
        rw (sized 1 (ap type_size ((opened-shape v).0 ∙ byte)) (lost_kept int8_t byte lost))
          (expand-Added int16_t short_kept (short_kept z room))
  ]

  word_Added : v.type_s ≡ int16_t → Added (inc_or_expand memory v size n int16_t int32_t false) v z
  word_Added word = elim (IsShort-lost z int) [
    | inl fits ↦ stored_Added (rw word (short_kept z fits))
    | inr lost ↦
        rw (sized 2 (ap type_size ((opened-shape v).0 ∙ word)) (lost_kept int16_t word lost))
          (expand-Added int32_t (λ y h. int_kept y (short-IsInt y h)) (int_kept z int))
  ]

  -- INC_OR_EXPAND on a signed vector of bytes or of 16-bit samples.
  pub inc_or_expand-Added :
      ((v.type_s ≡ int8_t) × IsShort z) ⊎ (v.type_s ≡ int16_t)
      → Added (inc_or_expand memory v size n int16_t int32_t false) v z
  inc_or_expand-Added (inl b) = byte_Added b.0 b.1
  inc_or_expand-Added (inr w) = word_Added w

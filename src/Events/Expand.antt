-- ===== src/Events/Expand.antt =====
-- INC_OR_EXPAND of src/field.cc on an unsigned counter: a sum that the samples cannot hold moves them to
-- a wider type, once.
use topy.Prelude.{
  ℕ, zero, suc, ◌^◌, ◌≤◌, ◌<◌, ◌≡◌, refl, sym, ap, subst, ◌∙◌, ◌⊎◌, inl, inr, Bool, true, false,
  arith, ℤ, pos, negsuc, ◌+ℤ◌, pos_part, wrap32, ltb, ◌==◌, if◌then◌else◌, Bool-cases, ltb→lt,
}
use topy.StatsVector.Loops.{Cells}
use topy.StatsVector.{
  SampleType, uint8_t, uint16_t, uint32_t, StatsVector, type_size, modulus, is_signed, cast,
  get_sample, inc, opened, copy, copy_loop, new_vector,
}
use topy.StatsVector.Increment.{
  clip, IsInt, wrap32_int, cast_fits, inc_fits, inc_refused, inc_rest, get_sample-opened,
  count-opened, opened-shape,
}
use topy.Events.{inc_or_expand, expand}

pub copy_loop_at :
    (n : ℕ) (t : SampleType) (src : StatsVector) (c : Cells) (j : ℕ)
    → copy_loop n t src c j ≡ (if ltb j n then cast t (get_sample src j) else c j)
unfolding copy_loop
copy_loop_at zero t src c j = ground arith
copy_loop_at (suc n) t src c j = ground (arith, copy_loop_at n t src c j)

-- A number of at least 0 below m.
abbrev pub Held : ℕ → ℤ → Type 0
Held m (pos k) = k < m
Held m (negsuc k) = ⊥

-- Every sample that a reader sees is a count below m.
pub record Counts (m : ℕ) (v : StatsVector) : Type 0 where
  pub held : (i : ℕ) → Held m (get_sample v i)

cast-Held :
    (t : SampleType) (z : ℤ)
    → is_signed t ≡ false
    → 2 ^ 16 ≤ modulus t
    → Held (2 ^ 16) z
    → wrap32 (cast t z) ≡ z
cast-Held t (pos k) e w h = rw (cast_fits t k e (omega arith)) (wrap32_int (pos k) (omega arith))
cast-Held t (negsuc k) e w h = absurd h

module _ (memory : Cells) (size : ℕ) (t : SampleType) (v : StatsVector)
    (plain : is_signed t ≡ false) (wide : 2 ^ 16 ≤ modulus t) (counts : Counts (2 ^ 16) v) where
  copied : StatsVector
  copied = copy (new_vector t size true memory) v

  get_sample-copied : (i : ℕ) → get_sample copied i ≡ get_sample v i
  unfolding copied copy new_vector get_sample
  get_sample-copied i = ground (
    arith,
    copy_loop_at v.count t v memory i,
    cast-Held t (get_sample v i) plain wide (counts.held i),
  )

  first-copied : (s : ℕ) → get_sample v 0 ≡ pos s → 0 < v.count → (opened copied).samples 0 ≡ pos s
  unfolding copied copy new_vector opened
  first-copied s e h =
      let small : s < 2 ^ 16 = subst (Held (2 ^ 16)) e (counts.held 0) in
      ground (arith, copy_loop_at v.count t v memory 0, cast_fits t s plain (omega arith))

  -- The wider vector holds the sum, and the other samples as they were.
  expand_exact :
      (s : ℕ) (n z : ℤ)
      → get_sample v 0 ≡ pos s
      → 0 < v.count
      → pos s +ℤ n ≡ z
      → IsInt z
      → pos_part z < modulus t
      → (get_sample (expand memory v size n t true) 0 ≡ clip z)
        × ((i : ℕ) → 0 < i → get_sample (expand memory v size n t true) i ≡ get_sample v i)
  unfolding expand copied copy new_vector
  expand_exact s n z e h sum int room = (
    (inc_fits copied s n z refl plain (first-copied s e h) sum int room).1,
    λ i later. inc_rest copied n i later ∙ get_sample-copied i,
  )

  expand-copied : (n : ℤ) → expand memory v size n t true ≡ (inc copied n).0
  unfolding expand copied
  expand-copied n = refl

  expand_refused :
      (s : ℕ) (n z : ℤ)
      → get_sample v 0 ≡ pos s
      → 0 < v.count
      → pos s +ℤ n ≡ z
      → IsInt z
      → z ≡ pos (pos_part z)
      → modulus t ≤ pos_part z
      → get_sample (expand memory v size n t true) 0 ≡ pos s
  unfolding copied copy new_vector
  expand_refused s n z e h sum int p over = rw (expand-copied n) (
      ap (λ (r : StatsVector × Bool). get_sample r.0 0)
        (inc_refused copied s n z refl plain (first-copied s e h) sum int (pos_part z) p over)
      ∙ get_sample-opened copied 0
      ∙ get_sample-copied 0
      ∙ e)

Counts-opened : (m : ℕ) (v : StatsVector) → Counts m v → Counts m (opened v)
Counts-opened m v c = record { held = λ i. subst (Held m) (sym (get_sample-opened v i)) (c.held i) }

-- The first sample of a vector that has one, as the cell holds it.
abbrev pub FirstIs : StatsVector → ℕ → Type 0
FirstIs v s = (opened v).samples 0 ≡ pos s

get_sample-first :
    (v : StatsVector) (s : ℕ) → s < 2 ^ 16 → FirstIs v s → get_sample (opened v) 0 ≡ pos s
unfolding get_sample
get_sample-first v s h e = ground (arith, count-opened v)

-- What a counter shows after n events (or fewer, where n is negative): the sum in the newest sample,
-- never below 0, and the older samples as they were.
pub record Counted (r v : StatsVector) (z : ℤ) : Type 0 where
  pub newest : get_sample r 0 ≡ clip z
  pub older : (i : ℕ) → 0 < i → get_sample r i ≡ get_sample v i

module _ (memory : Cells) (v : StatsVector) (size s : ℕ) (n z : ℤ) (unsigned : v.is_unsigned ≡ true)
    (counts : Counts (2 ^ 16) v) (held : s < 2 ^ 16) (first : FirstIs v s) (total : pos s +ℤ n ≡ z)
    (int : IsInt z) where
  fits_Counted :
      is_signed v.type_s ≡ false
      → pos_part z < modulus v.type_s
      → Counted (inc_or_expand memory v size n uint16_t uint32_t true) v z
  unfolding inc_or_expand
  fits_Counted plain room =
      let r = inc_fits v s n z unsigned plain first total int room in
      rw (r.0) (record { newest = r.1; older = λ i h. inc_rest v n i h })

  expand-Counted :
      (t : SampleType)
      → is_signed t ≡ false
      → 2 ^ 16 ≤ modulus t
      → pos_part z < modulus t
      → Counted (expand memory (opened v) size n t true) v z
  expand-Counted t plain wide room =
      let r =
        expand_exact memory size t (opened v) plain wide (Counts-opened (2 ^ 16) v counts) s n z
          (get_sample-first v s held first) (count-opened v) total int room in
      record { newest = r.0; older = λ i h. r.1 i h ∙ get_sample-opened v i }

  -- The size of the samples decides the new type.
  sized :
      (k : ℕ)
      → type_size (opened v).type_s ≡ k
      → inc v n ≡ (opened v, false)
      → inc_or_expand memory v size n uint16_t uint32_t true ≡ (
          if k == 1
          then expand memory (opened v) size n uint16_t true
          else if k == 2
          then expand memory (opened v) size n uint32_t true
          else opened v)
  unfolding inc_or_expand
  sized k e refused = rw (refused, e)

  byte_Counted :
      v.type_s ≡ uint8_t
      → pos_part z < 2 ^ 16
      → Counted (inc_or_expand memory v size n uint16_t uint32_t true) v z
  byte_Counted byte room = elim (Bool-cases (ltb (pos_part z) (2 ^ 8))) [
    | inl fits ↦ fits_Counted (rw byte refl) (rw byte (ltb→lt _ _ fits))
    | inr over ↦
        rw (sized 1 (ap type_size ((opened-shape v).0 ∙ byte)) (refused over))
          (expand-Counted uint16_t refl (omega arith) room)
  ]
    where
      refused : ltb (pos_part z) (2 ^ 8) ≡ false → inc v n ≡ (opened v, false)
      refused over =
          inc_refused v s n z unsigned (rw byte refl) first total int (pos_part z) (ground arith)
            (rw byte (ground arith))

  word_Counted :
      v.type_s ≡ uint16_t → Counted (inc_or_expand memory v size n uint16_t uint32_t true) v z
  word_Counted word = elim (Bool-cases (ltb (pos_part z) (2 ^ 16))) [
    | inl fits ↦ fits_Counted (rw word refl) (rw word (ltb→lt _ _ fits))
    | inr over ↦
        rw (sized 2 (ap type_size ((opened-shape v).0 ∙ word)) (refused over))
          (expand-Counted uint32_t refl (omega arith) (omega (arith, int.0)))
  ]
    where
      refused : ltb (pos_part z) (2 ^ 16) ≡ false → inc v n ≡ (opened v, false)
      refused over =
          inc_refused v s n z unsigned (rw word refl) first total int (pos_part z) (ground arith)
            (rw word (ground arith))

  -- INC_OR_EXPAND on an unsigned counter of bytes or of 16-bit samples, whose visible samples are
  -- below 2^16, leaves MAX(0, newest + n) as the newest sample and every older sample as it was,
  -- widening the samples where the sum does not fit, if the sum is an `int` and, for bytes, its
  -- positive part is below 2^16.
  pub inc_or_expand-Counted :
      ((v.type_s ≡ uint8_t) × (pos_part z < 2 ^ 16)) ⊎ (v.type_s ≡ uint16_t)
      → Counted (inc_or_expand memory v size n uint16_t uint32_t true) v z
  inc_or_expand-Counted (inl b) = byte_Counted b.0 b.1
  inc_or_expand-Counted (inr w) = word_Counted w

  -- INC_OR_EXPAND on an unsigned counter of bytes, whose visible samples are below 2^16, loses an
  -- increment whose sum is an `int` of 2^16 or more: the newest sample keeps its old value.
  pub inc_or_expand_lost :
      v.type_s ≡ uint8_t
      → 2 ^ 16 ≤ pos_part z
      → get_sample (inc_or_expand memory v size n uint16_t uint32_t true) 0 ≡ pos s
  inc_or_expand_lost byte over =
      rw (sized 1 (ap type_size ((opened-shape v).0 ∙ byte)) refused) lost
    where
      is_pos : (y : ℤ) → 2 ^ 16 ≤ pos_part y → y ≡ pos (pos_part y)
      is_pos (pos k) h = refl
      is_pos (negsuc k) h = absurd (omega arith)

      refused : inc v n ≡ (opened v, false)
      refused =
          inc_refused v s n z unsigned (rw byte refl) first total int (pos_part z) (is_pos z over)
            (rw byte (omega arith))

      lost : get_sample (expand memory (opened v) size n uint16_t true) 0 ≡ pos s
      lost =
          expand_refused memory size uint16_t (opened v) refl (omega arith)
            (Counts-opened (2 ^ 16) v counts) s n z (get_sample-first v s held first)
            (count-opened v) total int (is_pos z over) over

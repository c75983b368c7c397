-- ===== src/StatsVector/Dump/RoundTrip.antt =====
-- dump and restore of StatsVector of src/field.cc, one after the other.
use topy.Prelude.{
  ℕ, zero, suc, ◌+◌, ◌-◌, ◌^◌, ◌≤◌, ◌<◌, ◌≡◌, refl, ap, subst, ◌∙◌, Text, true, false, ◌&&◌, ◌∷◌,
  ◌++◌, ℤ, pos, negsuc, residue, to_int32, wrap32, ltb, leb, ◌==◌, if◌then◌else◌, arith,
  append_assoc,
}
use topy.Decimal.{int_text, in_range}
use topy.Parser.{Parser, ok, pure, ◌>>=◌, read_int, waitfor, numeric}
use topy.Parser.Reading.{bind_ok, waitfor-cons, read_int-int_text}
use topy.StatsVector.{
  SampleType, uint8_t, uint16_t, uint32_t, uint64_t, int8_t, int16_t, int32_t, int64_t, StatsVector,
  cast,
}
use topy.StatsVector.Loops.{Cells, write}
use topy.StatsVector.Dump.{samples_text, dump_samples, comma, restore_loop, restored_count, restore}

-- The cells that a restore of n samples from i on has written.
pub filled : ℕ → ℕ → SampleType → Cells → Cells → Cells
filled zero i t from c = c
filled (suc n) i t from c = filled n (i + 1) t from (write c i (cast t (wrap32 (from i))))

pub filled_at :
    (n i : ℕ) (t : SampleType) (from c : Cells) (j : ℕ)
    → filled n i t from c j ≡ (if leb i j && ltb j (i + n) then cast t (wrap32 (from j)) else c j)
unfolding filled
filled_at zero i t from c j = ground arith
filled_at (suc n) i t from c j =
    ground (arith, filled_at n (i + 1) t from (write c i (cast t (wrap32 (from i)))) j)

wrap32-in_range : (z : ℤ) → in_range (2 ^ 31) (wrap32 z) ≡ true
wrap32-in_range z = to_int32-in_range (residue (2 ^ 32) z) (residue_small z)
  where
    residue_small : (y : ℤ) → residue (2 ^ 32) y < 2 ^ 32
    residue_small (pos n) = omega arith
    residue_small (negsuc n) = omega arith

    to_int32-in_range : (n : ℕ) → n < 2 ^ 32 → in_range (2 ^ 31) (to_int32 n) ≡ true
    to_int32-in_range n h = ground arith

module _ (failed : Text → ℤ) where
  comma_last : (i : ℕ) (p : Parser) → comma i (i + 1) p ≡ ok tt p
  unfolding comma
  comma_last i p = let none_left : ltb i (i + 1 - 1) ≡ false = ground arith in rw none_left

  comma_more :
      (i n : ℕ) (rest : Text) (p : Parser)
      → comma i (i + suc (suc n)) (record p { text = b',' ∷ rest })
        ≡ ok tt (record p { text = rest })
  unfolding comma
  comma_more i n rest p =
      let some_left : ltb i (i + suc (suc n) - 1) ≡ true = ground arith in
      rw some_left (waitfor-cons b',' rest p refl)

  text_more :
      (n i : ℕ) (from : Cells) (rest : Text)
      → samples_text (suc n) (i + 1) from ++ rest
        ≡ b',' ∷ (int_text (wrap32 (from (i + 1))) ++ (samples_text n (i + 1 + 1) from ++ rest))
  unfolding samples_text
  text_more n i from rest =
      let later : ((i + 1) == 0) ≡ false = ground arith in
      rw later
        (ap (λ (t : Text). b',' ∷ t) (append_assoc (int_text (wrap32 (from (i + 1)))) _ rest))

  -- The loop, behind the comma of its first sample.
  restore_loop-samples_text :
      (n i : ℕ) (t : SampleType) (from c : Cells) (d : ℕ) (rest : Text) (p : Parser)
      → numeric d ≡ false
      → restore_loop failed (suc n) i (i + suc n) t c (record p {
        text = int_text (wrap32 (from i)) ++ (samples_text n (i + 1) from ++ (d ∷ rest));
      })
        ≡ ok (filled (suc n) i t from c) (record p { text = d ∷ rest })
  unfolding restore_loop samples_text filled comma
  restore_loop-samples_text zero i t from c d rest p h =
      bind_ok (read_int failed) _ _ _ _
        (read_int-int_text failed (wrap32 (from i)) d rest p (wrap32-in_range (from i)) h)
      ∙ bind_ok (comma i (i + 1)) _ _ _ tt (comma_last i (record p { text = d ∷ rest }))
  restore_loop-samples_text (suc n) i t from c d rest p h =
      ap
        (λ (s : Text).
          restore_loop failed (suc (suc n)) i (i + suc (suc n)) t c
            (record p { text = int_text (wrap32 (from i)) ++ s }))
        (text_more n i from (d ∷ rest))
      ∙ bind_ok (read_int failed) _ _ _ _
          (read_int-int_text failed (wrap32 (from i)) b',' _ p (wrap32-in_range (from i)) refl)
      ∙ bind_ok (comma i (i + suc (suc n))) _ _ _ tt (comma_more i n _ p)
      ∙ subst
          (λ count.
            restore_loop failed (suc n) (i + 1) count t (write c i (cast t (wrap32 (from i))))
              (record p {
                text =
                    int_text (wrap32 (from (i + 1)))
                    ++ (samples_text n (i + 1 + 1) from ++ (d ∷ rest));
              })
            ≡ ok (filled (suc (suc n)) i t from c) (record p { text = d ∷ rest }))
          (omega arith)
          (restore_loop-samples_text n (i + 1) t from (write c i (cast t (wrap32 (from i)))) d rest
            p h)

  -- The loop, on all samples.
  restore_loop-all :
      (n : ℕ) (t : SampleType) (from c : Cells) (d : ℕ) (rest : Text) (p : Parser)
      → numeric d ≡ false
      → restore_loop failed n 0 n t c (record p { text = samples_text n 0 from ++ (d ∷ rest) })
        ≡ ok (filled n 0 t from c) (record p { text = d ∷ rest })
  unfolding restore_loop samples_text filled
  restore_loop-all zero t from c d rest p h = refl
  restore_loop-all (suc n) t from c d rest p h =
      ap (λ (s : Text). restore_loop failed (suc n) 0 (suc n) t c (record p { text = s }))
        (append_assoc (int_text (wrap32 (from 0))) (samples_text n 1 from) (d ∷ rest))
      ∙ subst
          (λ count.
            restore_loop failed (suc n) 0 count t c (record p {
              text = int_text (wrap32 (from 0)) ++ (samples_text n 1 from ++ (d ∷ rest));
            })
            ≡ ok (filled (suc n) 0 t from c) (record p { text = d ∷ rest }))
          (omega arith) (restore_loop-samples_text n 0 t from c d rest p h)

  count_fits : (n : ℕ) → n < 256 → in_range (2 ^ 31) (pos n) ≡ true
  count_fits n h = ground arith

  kept_count : (len n : ℕ) → n < 256 → n ≤ len → restored_count len (pos n) ≡ n
  unfolding restored_count
  kept_count len n h k = ground arith

  pub restore-dump_samples :
      (v w : StatsVector) (d : ℕ) (rest : Text) (p : Parser)
      → v.count < 256
      → v.count ≤ w.len_s
      → numeric d ≡ false
      → restore failed w (record p { text = dump_samples v ++ (d ∷ rest) })
        ≡ ok
            (record w { count = v.count; samples = filled v.count 0 w.type_s v.samples w.samples })
            (record p { text = d ∷ rest })
  unfolding restore dump_samples
  restore-dump_samples v w d rest p small fits h =
      ap (λ (s : Text). restore failed w (record p { text = s }))
        (append_assoc (int_text (pos v.count)) (b':' ∷ samples_text v.count 0 v.samples) (d ∷ rest))
      ∙ bind_ok (read_int failed) _ _ _ _
          (read_int-int_text failed (pos v.count) b':' _ p (count_fits v.count small) refl)
      ∙ bind_ok (waitfor b':') _ _ _ tt
          (waitfor-cons b':' (samples_text v.count 0 v.samples ++ (d ∷ rest)) p refl)
      ∙ ap
          (λ (n : ℕ).
            (do
              c ← restore_loop failed n 0 n w.type_s w.samples
              pure (record w { count = n; samples = c }))
              (record p { text = samples_text v.count 0 v.samples ++ (d ∷ rest) }))
          (kept_count w.len_s v.count small fits)
      ∙ bind_ok (restore_loop failed v.count 0 v.count w.type_s w.samples) _ _ _ _
          (restore_loop-all v.count w.type_s v.samples w.samples d rest p h)

-- The int of a sample, stored again, is the same int.
pub wrap32-cast : (t : SampleType) (x : ℤ) → cast t x ≡ x → wrap32 (cast t (wrap32 x)) ≡ wrap32 x
unfolding cast
wrap32-cast uint8_t (pos n) h = ground (arith, h)
wrap32-cast uint8_t (negsuc n) h = ground (arith, h)
wrap32-cast uint16_t (pos n) h = ground (arith, h)
wrap32-cast uint16_t (negsuc n) h = ground (arith, h)
wrap32-cast uint32_t (pos n) h = ground (arith, h)
wrap32-cast uint32_t (negsuc n) h = ground (arith, h)
wrap32-cast uint64_t (pos n) h = ground (arith, h)
wrap32-cast uint64_t (negsuc n) h = ground (arith, h)
wrap32-cast int8_t (pos n) h = ground (arith, h)
wrap32-cast int8_t (negsuc n) h = ground (arith, h)
wrap32-cast int16_t (pos n) h = ground (arith, h)
wrap32-cast int16_t (negsuc n) h = ground (arith, h)
wrap32-cast int32_t (pos n) h = ground (arith, h)
wrap32-cast int32_t (negsuc n) h = ground (arith, h)
wrap32-cast int64_t (pos n) h = ground (arith, h)
wrap32-cast int64_t (negsuc n) h = ground (arith, h)

-- As an unsigned int, too.
pub residue-cast :
    (t : SampleType) (x : ℤ)
    → cast t x ≡ x
    → residue (2 ^ 32) (cast t (wrap32 x)) ≡ residue (2 ^ 32) x
unfolding cast
residue-cast uint8_t (pos n) h = ground (arith, h)
residue-cast uint8_t (negsuc n) h = ground (arith, h)
residue-cast uint16_t (pos n) h = ground (arith, h)
residue-cast uint16_t (negsuc n) h = ground (arith, h)
residue-cast uint32_t (pos n) h = ground (arith, h)
residue-cast uint32_t (negsuc n) h = ground (arith, h)
residue-cast uint64_t (pos n) h = ground (arith, h)
residue-cast uint64_t (negsuc n) h = ground (arith, h)
residue-cast int8_t (pos n) h = ground (arith, h)
residue-cast int8_t (negsuc n) h = ground (arith, h)
residue-cast int16_t (pos n) h = ground (arith, h)
residue-cast int16_t (negsuc n) h = ground (arith, h)
residue-cast int32_t (pos n) h = ground (arith, h)
residue-cast int32_t (negsuc n) h = ground (arith, h)
residue-cast int64_t (pos n) h = ground (arith, h)
residue-cast int64_t (negsuc n) h = ground (arith, h)

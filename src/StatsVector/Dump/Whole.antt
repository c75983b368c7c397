-- ===== src/StatsVector/Dump/Whole.antt =====
-- dump and restore of StatsVector of src/field.cc, sample by sample.
use topy.Prelude.{
  ℕ, zero, suc, ◌^◌, ◌≤◌, ◌<◌, min, ◌≡◌, refl, sym, ap, ◌∙◌, Text, Bool, true, ◌∷◌, ◌++◌, ℤ, pos,
  residue, to_int32, arith, append_assoc, Option, some,
}
use topy.Decimal.{int_text, in_range}
use topy.Parser.{Parse, Parser, Parsed, ok, pure, ◌>>=◌, ◌>>◌, read_int, waitfor}
use topy.Parser.Reading.{bind_ok, waitfor-cons, read_int-int_text}
use topy.StatsVector.{
  SampleType, uint8_t, uint16_t, uint32_t, uint64_t, int8_t, int16_t, int32_t, int64_t, StatsVector,
  type_size, cast, new_vector, get_sample, sum_loop, sum,
}
use topy.StatsVector.Loops.{Cells}
use topy.StatsVector.Dump.{dump_samples, dump, restored_type, restore_new, restore_vector}
use topy.StatsVector.Dump.RoundTrip.{
  filled, filled_at, wrap32-cast, residue-cast, restore-dump_samples,
}

-- The samples are values of the type of the vector, and their number is a uint8_t.
pub record IsStored (v : StatsVector) : Type 0 where
  pub typed : (n : ℕ) → cast v.type_s (v.samples n) ≡ v.samples n
  pub fits : v.count ≤ v.len_s
  pub counted : v.count < 256

-- The vector that a restore makes of the samples of v, over memory that held other ones.
unfoldable pub restored : Cells → StatsVector → StatsVector
restored memory v = record v { samples = filled v.count 0 v.type_s v.samples memory }

pub get_sample-restored :
    (memory : Cells) (v : StatsVector) (n : ℕ)
    → IsStored v
    → get_sample (restored memory v) n ≡ get_sample v n
unfolding restored get_sample
get_sample-restored memory v n h = ground (
  arith,
  filled_at v.count 0 v.type_s v.samples memory n,
  wrap32-cast v.type_s (v.samples n) (h.typed n),
)

sum_loop-restored :
    (memory : Cells) (v : StatsVector) (n : ℕ)
    → IsStored v
    → n ≤ v.count
    → sum_loop n (restored memory v).samples ≡ sum_loop n v.samples
unfolding sum_loop restored
sum_loop-restored memory v zero h k = refl
sum_loop-restored memory v (suc n) h k =
    let here : residue (2 ^ 32) ((restored memory v).samples n) ≡ residue (2 ^ 32) (v.samples n) =
      ground (
        arith,
        filled_at v.count 0 v.type_s v.samples memory n,
        residue-cast v.type_s (v.samples n) (h.typed n),
      ) in
    rw (sum_loop-restored memory v n h (omega (arith, k)), here) refl

pub sum-restored :
    (memory : Cells) (v : StatsVector) (n : ℕ)
    → IsStored v
    → sum (restored memory v) (pos n) ≡ sum v (pos n)
unfolding sum restored
sum-restored memory v zero h = ap to_int32 (sum_loop-restored memory v v.count h (omega arith))
sum-restored memory v (suc n) h =
    ap to_int32 (sum_loop-restored memory v (min (suc n) v.count) h (omega arith))

-- A vector in braces, as the fields write it.
pub braced : StatsVector → Text → Text
braced v rest = b'{' ∷ (dump v ++ (b'}' ∷ rest))

size_fits : (t : SampleType) → in_range (2 ^ 31) (pos (type_size t)) ≡ true
size_fits uint8_t = refl
size_fits uint16_t = refl
size_fits uint32_t = refl
size_fits uint64_t = refl
size_fits int8_t = refl
size_fits int16_t = refl
size_fits int32_t = refl
size_fits int64_t = refl

module _ (failed : Text → ℤ) where
  restore_new-dump_samples :
      (memory : Cells) (v : StatsVector) (rest : Text) (p : Parser)
      → IsStored v
      → restore_new failed memory v.len_s v.is_unsigned
          (some v.type_s)
          (record p { text = dump_samples v ++ (b'}' ∷ rest) })
        ≡ ok (restored memory v) (record p { text = b'}' ∷ rest })
  unfolding restore_new new_vector restored
  restore_new-dump_samples memory v rest p h =
      restore-dump_samples failed v (new_vector v.type_s v.len_s v.is_unsigned memory) b'}' rest p
        h.counted h.fits refl

  pub restore_vector-braced :
      (memory : Cells) (v : StatsVector) (type1 type2 type4 : SampleType) (rest : Text) (p : Parser)
      → IsStored v
      → restored_type type1 type2 type4 (pos (type_size v.type_s)) ≡ some v.type_s
      → restore_vector failed memory v.len_s type1 type2 type4 v.is_unsigned
          (record p { text = braced v rest })
        ≡ ok (restored memory v) (record p { text = rest })
  unfolding restore_vector braced dump
  restore_vector-braced memory v type1 type2 type4 rest p h typed =
      bind_ok (waitfor b'{') _ _ _ tt (waitfor-cons b'{' (dump v ++ (b'}' ∷ rest)) p refl)
      ∙ ap (λ (s : Text). after_brace (record p { text = s }))
          (append_assoc (int_text (pos (type_size v.type_s))) (b':' ∷ dump_samples v) (b'}' ∷ rest))
      ∙ bind_ok (read_int failed) _ _ _ _
          (read_int-int_text failed (pos (type_size v.type_s)) b':' _ p (size_fits v.type_s) refl)
      ∙ bind_ok (waitfor b':') _ _ _ tt (waitfor-cons b':' (dump_samples v ++ (b'}' ∷ rest)) p refl)
      ∙ bind_ok
          (restore_new failed memory v.len_s v.is_unsigned
            (restored_type type1 type2 type4 (pos (type_size v.type_s))))
          _ _ _ _
          (ap
              (λ (t : Option SampleType).
                restore_new failed memory v.len_s v.is_unsigned t
                  (record p { text = dump_samples v ++ (b'}' ∷ rest) }))
              typed
            ∙ restore_new-dump_samples memory v rest p h)
      ∙ bind_ok (waitfor b'}') _ _ _ tt (waitfor-cons b'}' rest p refl)
    where
      after_brace : Parser → Parsed StatsVector
      after_brace = do
        n ← read_int failed
        waitfor b':'
        w ← restore_new failed memory v.len_s v.is_unsigned (restored_type type1 type2 type4 n)
        waitfor b'}'
        pure w

  -- The same, for what follows, in a field whose vectors have this length.
  pub restore_vector-then :
      {B : Type 0}
      → (memory : Cells) (k : StatsVector → Parse B) (len : ℕ) (unsigned : Bool) (v : StatsVector)
        (type1 type2 type4 : SampleType) (rest : Text) (p : Parser)
      → IsStored v
      → v.len_s ≡ len
      → v.is_unsigned ≡ unsigned
      → restored_type type1 type2 type4 (pos (type_size v.type_s)) ≡ some v.type_s
      → (restore_vector failed memory len type1 type2 type4 unsigned >>= k)
          (record p { text = braced v rest })
        ≡ k (restored memory v) (record p { text = rest })
  restore_vector-then memory k len unsigned v type1 type2 type4 rest p h l u typed =
      bind_ok (restore_vector failed memory len type1 type2 type4 unsigned) k _ _ _ (
        ap
          (λ (n : ℕ).
            restore_vector failed memory n type1 type2 type4 unsigned
              (record p { text = braced v rest }))
          (sym l)
        ∙ ap
            (λ (s : Bool).
              restore_vector failed memory v.len_s type1 type2 type4 s
                (record p { text = braced v rest }))
            (sym u)
        ∙ restore_vector-braced memory v type1 type2 type4 rest p h typed)

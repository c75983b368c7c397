-- ===== src/StatsVector/Dump.antt =====
-- The text form of a vector: dump, and restore into a vector that is there.
pub mod RoundTrip
pub mod Whole
use topy.Prelude.{
  ℕ, zero, suc, ◌+◌, ◌-◌, ◌%◌, ◌^◌, min, Text, codes, Bool, true, false, Option, none, some, List,
  [], ◌∷◌, ◌++◌, ℤ, pos, residue, wrap32, ltb, ◌==◌, if◌then◌else◌,
}
use topy.Decimal.{int_text}
use topy.Parser.{Parse, Parser, ok, undefined, pure, ◌>>=◌, ◌>>◌, read_int, waitfor}
use topy.StatsVector.{SampleType, StatsVector, type_size, cast, new_vector}
use topy.StatsVector.Loops.{Cells, write}

-- The loop of dump over n samples from i on.
unfoldable pub samples_text : ℕ → ℕ → Cells → Text
samples_text zero i c = []
samples_text (suc n) i c =
    (if i == 0 then [] else b',' ∷ []) ++ (int_text (wrap32 (c i)) ++ samples_text n (i + 1) c)

-- dump without the format
unfoldable pub dump_samples : StatsVector → Text
unfolding samples_text
dump_samples v = int_text (pos v.count) ++ (b':' ∷ samples_text v.count 0 v.samples)

-- dump with the format
unfoldable pub dump : StatsVector → Text
dump v = int_text (pos (type_size v.type_s)) ++ (b':' ∷ dump_samples v)

-- The comma behind sample i, of which there are `count`.
unfoldable pub comma : ℕ → ℕ → Parse (Unit {0})
comma i count = if ltb i (count - 1) then waitfor b',' else pure tt

-- count is a uint8_t, also before it is cut to the length.
unfoldable pub restored_count : ℕ → ℤ → ℕ
restored_count len n = min (residue (2 ^ 8) n) len

-- RESTORE_VECTOR(parser, vector, size, type1, type2, type4, is_unsigned)
abbrev pub restored_type : SampleType → SampleType → SampleType → ℤ → Option SampleType
restored_type type1 type2 type4 n =
    let size = residue (2 ^ 32) n in
    if size == 1
    then some type1
    else if size == 2
    then some type2
    else if size == 4
    then some type4
    else none

module _ (failed : Text → ℤ) where
  -- The loop of restore over n samples from i on.
  unfoldable pub restore_loop : ℕ → ℕ → ℕ → SampleType → Cells → Parse Cells
  unfolding comma
  restore_loop zero i count t c = pure c
  restore_loop (suc n) i count t c = do
    z ← read_int failed
    comma i count
    restore_loop n (i + 1) count t (write c i (cast t z))

  unfoldable pub restore : StatsVector → Parse StatsVector
  unfolding restore_loop restored_count
  restore v = do
    n ← read_int failed
    waitfor b':'
    c ← restore_loop (restored_count v.len_s n) 0 (restored_count v.len_s n) v.type_s v.samples
    pure (record v { count = restored_count v.len_s n; samples = c })

  -- Without a type the vector is NULL.
  unfoldable pub restore_new : Cells → ℕ → Bool → Option SampleType → Parse StatsVector
  restore_new memory len unsigned none p = undefined
  restore_new memory len unsigned (some t) p = restore (new_vector t len unsigned memory) p

  unfoldable pub restore_vector :
      Cells → ℕ → SampleType → SampleType → SampleType → Bool → Parse StatsVector
  unfolding restore_new
  restore_vector memory len type1 type2 type4 unsigned = do
    waitfor b'{'
    n ← read_int failed
    waitfor b':'
    v ← restore_new memory len unsigned (restored_type type1 type2 type4 n)
    waitfor b'}'
    pure v

-- ===== src/StatsVector.antt =====
-- The class StatsVector of src/field.cc: a fixed array of samples, the newest first, of which the
-- first `count` are in use. The template's parameters are fields; a sample is the number that a
-- value of type_s stands for, and a store converts to type_s.
pub mod Loops
pub mod Window
pub mod Increment
pub mod Dump
pub mod Sums
use Loops.{Cells, write, shift_loop, fill_loop, close_loop}
use topy.Prelude.{
  ℕ, zero, suc, ◌+◌, ◌-◌, ◌*◌, ◌/◌, ◌%◌, ◌^◌, min, Bool, true, false, not, ◌&&◌, ◌||◌, ℤ, pos,
  negsuc, ◌+ℤ◌, ltb_ℤ, residue, to_int32, wrap32, ltb, leb, ◌==◌, if◌then◌else◌,
}

-- The type_s of the instances that the program makes; time_t is int64_t.
pub data SampleType : Type 0 where
  uint8_t uint16_t uint32_t uint64_t int8_t int16_t int32_t int64_t : SampleType

abbrev pub type_size : SampleType → ℕ
type_size uint8_t = 1
type_size int8_t = 1
type_size uint16_t = 2
type_size int16_t = 2
type_size uint32_t = 4
type_size int32_t = 4
type_size uint64_t = 8
type_size int64_t = 8

abbrev pub is_signed : SampleType → Bool
is_signed int8_t = true
is_signed int16_t = true
is_signed int32_t = true
is_signed int64_t = true
is_signed _ = false

abbrev pub modulus : SampleType → ℕ
modulus uint8_t = 2 ^ 8
modulus int8_t = 2 ^ 8
modulus uint16_t = 2 ^ 16
modulus int16_t = 2 ^ 16
modulus uint32_t = 2 ^ 32
modulus int32_t = 2 ^ 32
modulus uint64_t = 2 ^ 64
modulus int64_t = 2 ^ 64

-- (type_s) z
unfoldable pub cast : SampleType → ℤ → ℤ
cast t z =
    let r = residue (modulus t) z in
    if is_signed t && leb (modulus t / 2) r then negsuc (modulus t - 1 - r) else pos r

unfoldable pub int_eq : ℤ → ℤ → Bool
int_eq a b = not (ltb_ℤ a b) && not (ltb_ℤ b a)

pub record StatsVector : Type 0 where
  pub type_s : SampleType
  pub len_s : ℕ
  pub is_unsigned : Bool
  pub count : ℕ
  pub samples : Cells

-- The constructor: the samples are what the memory held.
unfoldable pub new_vector : SampleType → ℕ → Bool → Cells → StatsVector
new_vector t len unsigned memory = record {
  type_s = t;
  len_s = len;
  is_unsigned = unsigned;
  count = 0;
  samples = memory;
}

pub clear : StatsVector → StatsVector
clear v = record v { count = 0 }

unfoldable pub get_sample : StatsVector → ℕ → ℤ
get_sample v n = if ltb n v.count then wrap32 (v.samples n) else pos 0

unfoldable pub set_sample : StatsVector → ℕ → ℤ → StatsVector × Bool
set_sample v n value =
    if ltb n v.count
    then (record v { samples = write v.samples n (cast v.type_s value) }, true)
    else (v, false)

-- The first sample of an empty vector is made, also when the increment is then refused.
unfoldable pub opened : StatsVector → StatsVector
opened v = if v.count == 0 then record v { count = 1; samples = write v.samples 0 (pos 0) } else v

-- The tests of inc on the new value of the first sample.
unfoldable pub store_first : StatsVector → ℤ → StatsVector × Bool
unfolding int_eq
store_first w value =
    if w.is_unsigned && ltb_ℤ value (pos 0)
    then (record w { samples = write w.samples 0 (pos 0) }, true)
    else if not (int_eq value (wrap32 (cast w.type_s value)))
    then (w, false)
    else (record w { samples = write w.samples 0 (cast w.type_s value) }, true)

unfoldable pub inc : StatsVector → ℤ → StatsVector × Bool
unfolding opened store_first
inc v n = let w = opened v in store_first w (wrap32 (w.samples 0 +ℤ n))

-- `unsigned int sum` over the first samples.
sum_loop : ℕ → Cells → ℕ
sum_loop zero c = 0
sum_loop (suc i) c = (sum_loop i c + residue (2 ^ 32) (c i)) % 2 ^ 32

unfoldable pub sum : StatsVector → ℤ → ℤ
unfolding sum_loop
sum v (pos zero) = to_int32 (sum_loop v.count v.samples)
sum v (pos (suc n)) = to_int32 (sum_loop (min (suc n) v.count) v.samples)
sum v (negsuc n) = pos 0

-- The samples beyond the count of `v` start at 0.
pub grow_to : StatsVector → ℕ → StatsVector
grow_to v size =
    if ltb v.count size
    then record v { samples = fill_loop (size - v.count) v.count v.samples; count = size }
    else v

add_loop : ℕ → SampleType → StatsVector → Cells → Cells
add_loop zero t src c = c
add_loop (suc i) t src c =
    let before = add_loop i t src c in write before i (cast t (before i +ℤ get_sample src i))

pub add : StatsVector → StatsVector → StatsVector
unfolding add_loop grow_to
add v src =
    let w = grow_to v src.count in record w { samples = add_loop src.count w.type_s src w.samples }

count_loop : ℕ → SampleType → StatsVector → Cells → Cells
count_loop zero t src c = c
count_loop (suc i) t src c =
    let before = count_loop i t src c in
    if int_eq (get_sample src i) (pos 0)
    then before
    else write before i (cast t (before i +ℤ pos 1))

pub count_active : StatsVector → StatsVector → StatsVector
unfolding count_loop grow_to
count_active v src =
    let w = grow_to v src.count in
    record w { samples = count_loop src.count w.type_s src w.samples }

-- `count` is a uint8_t.
unfoldable pub translate : StatsVector → ℕ → StatsVector
unfolding shift_loop fill_loop
translate v n =
    let delta = min n v.len_s in
    record v {
      samples = fill_loop delta 0 (shift_loop delta (min v.count (v.len_s - delta)) v.samples);
      count = min (v.count + delta) v.len_s % 2 ^ 8;
    }

unfoldable pub del : StatsVector → ℕ → StatsVector × Bool
unfolding close_loop
del v n = if leb v.count n then (v, false) else (
  record v { samples = close_loop (v.count - 1 - n) n v.samples; count = v.count - 1 },
  true,
)

unfoldable pub find_loop : ℕ → ℕ → ℤ → Cells → ℤ
find_loop zero i n c = negsuc 0
find_loop (suc k) i n c =
    let later = find_loop k (i + 1) n c in if int_eq (c i) n then pos i else later

unfoldable pub find : StatsVector → ℤ → ℤ
unfolding find_loop int_eq
find v n = find_loop v.count 0 (cast v.type_s n) v.samples

unfoldable pub copy_loop : ℕ → SampleType → StatsVector → Cells → Cells
copy_loop zero t src c = c
copy_loop (suc i) t src c = write (copy_loop i t src c) i (cast t (get_sample src i))

unfoldable pub copy : StatsVector → StatsVector → StatsVector
unfolding copy_loop
copy v src = record v { count = src.count; samples = copy_loop src.count v.type_s src v.samples }

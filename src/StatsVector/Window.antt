-- ===== src/StatsVector/Window.antt =====
-- The samples that StatsVector of src/field.cc shows, after each operation.
use topy.Prelude.{
  ℕ, ◌+◌, ◌-◌, ◌%◌, ◌^◌, ◌≤◌, ◌<◌, min, ◌≡◌, refl, ◌&&◌, arith, pos, ltb, leb, if◌then◌else◌,
}
use topy.StatsVector.Loops.{shift_loop, shift_loop_at, fill_loop_at, close_loop_at}
use topy.StatsVector.{StatsVector, get_sample, translate, del}

-- The count fits the array, and the array fits the uint8_t count.
pub record IsValid (v : StatsVector) : Type 0 where
  pub within : v.count ≤ v.len_s
  pub short : v.len_s < 2 ^ 8
  pub some_room : 0 < v.len_s

-- After a translation by n of a valid vector sample i reads as the former sample i - n, as 0 below
-- n, and as 0 beyond the array.
pub get_sample-translate :
    (v : StatsVector) (n i : ℕ)
    → IsValid v
    → get_sample (translate v n) i
      ≡ (if ltb i n then pos 0 else if ltb i v.len_s then get_sample v (i - n) else pos 0)
unfolding get_sample translate
get_sample-translate v n i h = ground (
  arith,
  fill_loop_at (min n v.len_s) 0
      (shift_loop (min n v.len_s) (min v.count (v.len_s - min n v.len_s)) v.samples) i,
  shift_loop_at (min n v.len_s) (min v.count (v.len_s - min n v.len_s)) v.samples i,
)

pub translate-IsValid : (v : StatsVector) (n : ℕ) → IsValid v → IsValid (translate v n)
unfolding translate
translate-IsValid v n h = record { within = omega arith; short = h.short; some_room = h.some_room }

len_s-translate : (v : StatsVector) (n : ℕ) → (translate v n).len_s ≡ v.len_s
unfolding translate
len_s-translate v n = refl

-- Translating a valid vector by m and then by n shows the same samples as translating it by m + n.
pub translate_twice :
    (v : StatsVector) (m n i : ℕ)
    → IsValid v
    → get_sample (translate (translate v m) n) i ≡ get_sample (translate v (m + n)) i
translate_twice v m n i h = ground (
  arith,
  get_sample-translate (translate v m) n i (translate-IsValid v m h),
  get_sample-translate v m (i - n) h,
  get_sample-translate v (m + n) i h,
  len_s-translate v m,
)

-- After del at n every sample from n on reads as its successor did and the others as before; where
-- n is not below the count nothing changes.
pub get_sample-del :
    (v : StatsVector) (n i : ℕ)
    → get_sample (del v n).0 i
      ≡ (if ltb n v.count && leb n i then get_sample v (i + 1) else get_sample v i)
unfolding get_sample del
get_sample-del v n i = ground (arith, close_loop_at (v.count - 1 - n) n v.samples i)

-- A vector that is longer than a uint8_t counts: the count wraps to the number of samples modulo 256.
pub count-translate_long :
    (v : StatsVector)
    → 2 ^ 8 < v.len_s
    → v.count < 2 ^ 8
    → (translate v 1).count ≡ (v.count + 1) % 2 ^ 8
unfolding translate
count-translate_long v long h = ground arith

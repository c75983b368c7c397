-- ===== src/Logs/Length.antt =====
-- The number of items of FieldUlog and FieldLog of src/field.cc after a series of inserts: a uint8_t.
use topy.Prelude.{
  ℕ, ◌+◌, ◌%◌, ◌^◌, ◌≤◌, ◌<◌, min, ◌≡◌, List, [], ◌∷◌, arith, ℤ, length, ltb, if◌then◌else◌,
  Bool-cases, ltb→lt, inl, inr,
}
use topy.StatsVector.Loops.{Cells}
use topy.StatsVector.{new_vector, set_sample, translate}
use topy.Logs.{LogField, insert, new_log}

-- The commands `insert <id>,<date>`, first to last.
pub insert_all : List (ℤ × ℤ) → LogField → LogField
insert_all [] f = f
insert_all ((n, date) ∷ rest) f = insert_all rest (insert n date f)

shape-insert :
    (n date : ℤ) (f : LogField)
    → ((insert n date f).items.count
        ≡ min (f.items.count + min 1 f.items.len_s) f.items.len_s % 2 ^ 8)
      × ((insert n date f).items.len_s ≡ f.items.len_s)
unfolding insert set_sample translate
shape-insert n date f = ground arith

count_short :
    (l : List (ℤ × ℤ)) (f : LogField)
    → f.items.len_s < 2 ^ 8
    → f.items.count ≤ f.items.len_s
    → (insert_all l f).items.count ≡ min (f.items.count + length l) f.items.len_s
unfolding insert_all
count_short [] f short fits = omega arith
count_short ((n, date) ∷ rest) f short fits = omega (
  arith,
  (shape-insert n date f).0,
  (shape-insert n date f).1,
  count_short rest (insert n date f) (omega (arith, (shape-insert n date f).1))
      (omega (arith, (shape-insert n date f).0, (shape-insert n date f).1)),
)

count_long :
    (l : List (ℤ × ℤ)) (f : LogField)
    → 2 ^ 8 ≤ f.items.len_s
    → f.items.count < 2 ^ 8
    → (insert_all l f).items.count ≡ (f.items.count + length l) % 2 ^ 8
unfolding insert_all
count_long [] f long fits = omega arith
count_long ((n, date) ∷ rest) f long fits = omega (
  arith,
  (shape-insert n date f).0,
  (shape-insert n date f).1,
  count_long rest (insert n date f) (omega (arith, (shape-insert n date f).1))
      (omega (arith, (shape-insert n date f).0, (shape-insert n date f).1)),
)

-- After a series of inserts a new field of fewer than 256 items holds as many as were inserted, up
-- to its room; one of 256 or more holds that number modulo 256.
pub count-insert_all :
    (len : ℕ) (memory memory' : Cells) (l : List (ℤ × ℤ))
    → (insert_all l (new_log len memory memory')).items.count
      ≡ (if ltb len (2 ^ 8) then min (length l) len else length l % 2 ^ 8)
unfolding new_log new_vector
count-insert_all len memory memory' l = elim (Bool-cases (ltb len (2 ^ 8))) [
  | inl short ↦ rw short (
      omega (
        arith,
        count_short l (new_log len memory memory') (ltb→lt len (2 ^ 8) short) (omega arith),
      ))
  | inr long ↦ rw long (
      omega (arith, count_long l (new_log len memory memory') (ground (arith, long)) (omega arith)))
]

-- ===== src/Fields/RoundTrip.antt =====
-- Fields::dump and Fields::restore of src/fields.cc, one after the other.
use topy.Prelude.{
  ℕ, zero, suc, ◌+◌, ◌^◌, ◌<◌, ◌≤◌, ◌≡◌, refl, ap, ◌∙◌, Text, text_eq_refl, true, List, [], ◌∷◌,
  ◌++◌, ℤ, pos, residue, arith,
}
use topy.Field.{
  FieldType, events, marks, int, uint, ulog, log, timestamp, unknown, get_type_name, type_named,
}
use topy.Fields.{
  Fields, Message, type_eq, dump_loop, dump, compare_field, restore_field, restore_loop,
  restore_fields, restore,
}
use topy.Parser.{Parser, ok, pure, ◌>>=◌, ◌>>◌, waitfor, test_next}
use topy.Parser.Reading.{bind_ok, read_int-then, read_until-then, lines, fits, IsReadable}

type_named-get_type_name : (t : FieldType) → type_named (get_type_name t) ≡ t
unfolding type_named get_type_name
type_named-get_type_name events = refl
type_named-get_type_name marks = refl
type_named-get_type_name int = refl
type_named-get_type_name uint = refl
type_named-get_type_name ulog = refl
type_named-get_type_name log = refl
type_named-get_type_name timestamp = refl
type_named-get_type_name unknown = refl

plain_type : (t : FieldType) → IsReadable b'"' (get_type_name t)
unfolding get_type_name
plain_type events = (ground arith, ground arith)
plain_type marks = (ground arith, ground arith)
plain_type int = (ground arith, ground arith)
plain_type uint = (ground arith, ground arith)
plain_type ulog = (ground arith, ground arith)
plain_type log = (ground arith, ground arith)
plain_type timestamp = (ground arith, ground arith)
plain_type unknown = (ground arith, ground arith)

type_eq_refl : (t : FieldType) → type_eq t t ≡ true
unfolding type_eq
type_eq_refl events = refl
type_eq_refl marks = refl
type_eq_refl int = refl
type_eq_refl uint = refl
type_eq_refl ulog = refl
type_eq_refl log = refl
type_eq_refl timestamp = refl
type_eq_refl unknown = refl

-- The dumped fields from i on, compared with those of the registry gs.
unfoldable pub compare_all : ℕ → ℕ → Fields → Fields → List Message
compare_all zero i fs gs = []
compare_all (suc n) i fs gs =
    compare_field (fs.fields_def i).name (get_type_name (fs.fields_def i).type) i gs
    ++ compare_all n (i + 1) fs gs

-- The names have no quote and no byte 255.
abbrev pub IsDumped : Fields → Type 0
IsDumped fs = (i : ℕ) → i < fs.count → IsReadable b'"' (fs.fields_def i).name

module _ (failed : Text → ℤ) (fs gs : Fields) (h : IsDumped fs) where
  restore_field-dump_loop :
      (n i : ℕ) (rest : Text) (p : Parser)
      → i < fs.count
      → restore_field failed gs i (record p { text = dump_loop (suc n) i fs rest })
        ≡ ok
            (compare_field (fs.fields_def i).name (get_type_name (fs.fields_def i).type) i gs)
            (record (lines 1 p) { text = dump_loop n (i + 1) fs rest })
  unfolding restore_field dump_loop waitfor
  restore_field-dump_loop n i rest p k =
      read_until-then b'"' _ (fs.fields_def i).name _ p (h i k)
      ∙ read_until-then b'"' _ (get_type_name (fs.fields_def i).type) _ p
          (plain_type (fs.fields_def i).type)

  restore_loop-dump_loop :
      (n i : ℕ) (rest : Text) (p : Parser)
      → i + n ≤ fs.count
      → restore_loop failed gs n i (record p { text = dump_loop n i fs rest })
        ≡ ok (compare_all n i fs gs) (record (lines n p) { text = rest })
  unfolding restore_loop compare_all dump_loop
  restore_loop-dump_loop zero i rest p k =
      ap (λ (l : ℕ). ok [] (record p { text = rest; line = l })) (omega arith)
  restore_loop-dump_loop (suc n) i rest p k =
      bind_ok (restore_field failed gs i) _ _ _ _
        (restore_field-dump_loop n i rest p (omega (arith, k)))
      ∙ bind_ok (restore_loop failed gs n (i + 1)) _ _ _ _
          (restore_loop-dump_loop n (i + 1) rest (lines 1 p) (omega (arith, k)))
      ∙ ap (λ (l : ℕ). ok (compare_all (suc n) i fs gs) (record p { text = rest; line = l }))
          {x = p.line + 1 + n} (omega arith)

  -- The messages of a restore: those of comparing the dumped fields with the registry gs, one by one.
  pub restore-dump :
      (rest : Text) (p : Parser)
      → fs.count < 256
      → restore failed gs (record p { text = dump fs rest })
        ≡ ok (compare_all fs.count 0 fs gs) (record (lines (fs.count + 2) p) { text = rest })
  unfolding restore restore_fields dump waitfor test_next
  restore-dump rest p small =
      read_int-then failed _ (pos fs.count) b':' _ p (fits fs.count (omega (arith, small))) refl
      ∙ ap
          (λ (n : ℕ).
            (do messages ← restore_loop failed gs n 0; waitfor b'}'; waitfor 10; pure messages)
              (record (lines 1 p) { text = dump_loop fs.count 0 fs (b'}' ∷ 10 ∷ rest) }))
          (byte fs.count small)
      ∙ bind_ok (restore_loop failed gs fs.count 0) _ _ _ _
          (restore_loop-dump_loop fs.count 0 (b'}' ∷ 10 ∷ rest) (lines 1 p) (omega arith))
      ∙ ap (λ (l : ℕ). ok (compare_all fs.count 0 fs gs) (record p { text = rest; line = l }))
          (omega arith)
    where
      byte : (n : ℕ) → n < 256 → residue (2 ^ 8) (pos n) ≡ n
      byte n k = omega arith

compare_field_same :
    (fs : Fields) (i : ℕ)
    → i < fs.count
    → compare_field (fs.fields_def i).name (get_type_name (fs.fields_def i).type) i fs ≡ []
unfolding compare_field
compare_field_same fs i k = ground (
  arith,
  type_eq_refl (fs.fields_def i).type,
  type_named-get_type_name (fs.fields_def i).type,
  text_eq_refl (fs.fields_def i).name,
)

-- A registry has nothing to say of its own fields.
compare_all_same : (n i : ℕ) (fs : Fields) → i + n ≤ fs.count → compare_all n i fs fs ≡ []
unfolding compare_all
compare_all_same zero i fs k = refl
compare_all_same (suc n) i fs k =
    rw (compare_field_same fs i (omega (arith, k)))
      (compare_all_same n (i + 1) fs (omega (arith, k)))

pub restore-dump_same :
    (failed : Text → ℤ) (fs : Fields) (rest : Text) (p : Parser)
    → IsDumped fs
    → fs.count < 256
    → restore failed fs (record p { text = dump fs rest })
      ≡ ok [] (record (lines (fs.count + 2) p) { text = rest })
restore-dump_same failed fs rest p h small =
    restore-dump failed fs fs h rest p small
    ∙ ap (λ (m : List Message). ok m (record (lines (fs.count + 2) p) { text = rest }))
        (compare_all_same fs.count 0 fs (omega arith))

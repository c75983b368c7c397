-- ===== src/Fields.antt =====
-- src/fields.cc: the names and the types of the fields that every user has. What is written to the
-- log is a list of messages.

pub mod Registry
pub mod Frozen
pub mod RoundTrip
use topy.Prelude.{
  ℕ, zero, suc, ◌+◌, ◌^◌, Text, codes, text_eq, Bool, true, false, not, ◌&&◌, ◌||◌, Option, none,
  some, List, [], ◌∷◌, ◌++◌, ℤ, pos, residue, ltb, leb, ◌==◌, if◌then◌else◌,
}
use topy.Decimal.{int_text}
use topy.Field.{
  FieldType, events, marks, int, uint, ulog, log, timestamp, unknown, get_type_name, type_named,
}
use topy.Parser.{
  Parse, Parser, Parsed, ok, pure, ◌>>=◌, ◌>>◌, read_int, read_until, waitfor, test_next,
}
use topy.StdMap
use topy.StdMap.{StdMap}

-- USER_FIELDS_COUNT
abbrev pub user_fields_count : ℕ
user_fields_count = 8

abbrev pub field_id_unknown : ℕ
field_id_unknown = 255

pub record FieldDef : Type 0 where
  pub name : Text
  pub type : FieldType

pub record Fields : Type 0 where
  pub fields_def : ℕ → FieldDef
  pub fields_index : StdMap ℕ
  pub count : ℕ
  pub frozen : Bool

-- The constructor: the definitions are what the memory held.
unfoldable pub new_fields : (ℕ → FieldDef) → Fields
new_fields memory = record { fields_def = memory; fields_index = []; count = 0; frozen = false }

-- get_id; a FieldId is a uint8_t.
unfoldable pub get_id : Text → Fields → ℕ
get_id name fs = elim (StdMap.find name fs.fields_index) [
  | none ↦ field_id_unknown
  | some i ↦ residue (2 ^ 8) (pos i)
]

unfoldable pub add : Text → FieldType → Fields → Fields × Bool
add name type fs =
    if fs.frozen
    then (fs, false)
    else if leb user_fields_count fs.count
    then (fs, false)
    else if not (get_id name fs == field_id_unknown)
    then (fs, false)
    else (
      record fs {
        fields_def =
            λ i. if i == fs.count then record { name = name; type = type } else fs.fields_def i;
        fields_index = (StdMap.insert name fs.count fs.fields_index).0;
        count = fs.count + 1;
      },
      true,
    )

-- get_type(id)
unfoldable pub get_type : ℕ → Fields → FieldType
get_type id fs = if ltb id fs.count then (fs.fields_def id).type else unknown

unfoldable pub get_name : ℕ → Fields → Text
get_name id fs = if ltb id fs.count then (fs.fields_def id).name else codes "UNDEF"

unfoldable pub freeze : Fields → Fields
freeze fs = record fs { frozen = true }

-- init, on the names and the type names of the configuration
unfoldable pub init : List (Text × Text) → Fields → Fields × Bool
init [] fs = (fs, true)
init ((name, type_name) ∷ list) fs = elim (type_named type_name) as (λ t. Fields × Bool) [
  | unknown ↦ (fs, false)
  | events ↦ init list (add name events fs).0
  | marks ↦ init list (add name marks fs).0
  | int ↦ init list (add name int fs).0
  | uint ↦ init list (add name uint fs).0
  | ulog ↦ init list (add name ulog fs).0
  | log ↦ init list (add name log fs).0
  | timestamp ↦ init list (add name timestamp fs).0
]

unfoldable pub type_eq : FieldType → FieldType → Bool
type_eq events events = true
type_eq marks marks = true
type_eq int int = true
type_eq uint uint = true
type_eq ulog ulog = true
type_eq log log = true
type_eq timestamp timestamp = true
type_eq unknown unknown = true
type_eq s t = false

-- The loop of dump over n fields from i on, in front of `rest`.
unfoldable pub dump_loop : ℕ → ℕ → Fields → Text → Text
dump_loop zero i fs rest = rest
dump_loop (suc n) i fs rest =
    b'f'
    ∷ b'{'
    ∷ b'"'
    ∷ ((fs.fields_def i).name
        ++ (b'"'
            ∷ b':'
            ∷ b'"'
            ∷ (get_type_name (fs.fields_def i).type
                ++ (b'"' ∷ b'}' ∷ 10 ∷ dump_loop n (i + 1) fs rest))))

unfoldable pub dump : Fields → Text → Text
unfolding dump_loop
dump fs rest =
    b'F'
    ∷ b'{'
    ∷ (int_text (pos fs.count) ++ (b':' ∷ 10 ∷ dump_loop fs.count 0 fs (b'}' ∷ 10 ∷ rest)))

pub data Message : Type 0 where
  invalid_structure : Message
  name_changed : Text → Text → Message

-- What restore says of field i of the dump.
unfoldable pub compare_field : Text → Text → ℕ → Fields → List Message
unfolding type_eq
compare_field name type_name i fs =
    if leb fs.count i || not (type_eq (type_named type_name) (fs.fields_def i).type)
    then invalid_structure ∷ []
    else if not (text_eq name (fs.fields_def i).name)
    then name_changed name (fs.fields_def i).name ∷ []
    else []

module _ (failed : Text → ℤ) (fs : Fields) where
  -- The body of the loop of restore.
  unfoldable pub restore_field : ℕ → Parse (List Message)
  restore_field i = do
    waitfor b'f'
    waitfor b'{'
    waitfor b'"'
    name ← read_until b'"'
    waitfor b'"'
    waitfor b':'
    waitfor b'"'
    type_name ← read_until b'"'
    waitfor b'"'
    waitfor b'}'
    waitfor 10
    pure (compare_field name type_name i fs)

  unfoldable pub restore_loop : ℕ → ℕ → Parse (List Message)
  restore_loop zero i = pure []
  restore_loop (suc n) i = do
    here ← restore_field i
    later ← restore_loop n (i + 1)
    pure (here ++ later)

  -- The part of restore behind the F.
  unfoldable pub restore_fields : Parse (List Message)
  unfolding restore_loop restore_field
  restore_fields = do
    waitfor b'{'
    c ← read_int failed
    waitfor b':'
    waitfor 10
    messages ← restore_loop (residue (2 ^ 8) c) 0
    waitfor b'}'
    waitfor 10
    pure messages

  unfoldable pub restore : Parse (List Message)
  unfolding restore_fields
  restore = do there ← test_next b'F'; if there then restore_fields else pure []

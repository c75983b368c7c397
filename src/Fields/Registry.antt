-- ===== src/Fields/Registry.antt =====
-- Fields::add of src/fields.cc, by its outcome.
use topy.Prelude.{
  ℕ, ◌+◌, ◌<◌, ◌≤◌, ◌≡◌, refl, sym, ap, subst, ◌∙◌, ◌⊎◌, inl, inr, Text, text_eq, text_eq_iff,
  text_eq_refl, Bool, true, false, none, some, leb, ◌==◌, if◌then◌else◌, arith, Bool-cases,
  Option-cases,
}
use topy.Field.{FieldType}
use topy.Fields.{
  FieldDef, Fields, user_fields_count, field_id_unknown, new_fields, get_id, add, get_type,
  get_name,
}
use topy.StdMap
use topy.StdMap.{StdMap}
use topy.StdMap.Laws.{find-place, insert_new}

-- The index and the definitions agree, and no name stands twice.
pub record IsRegistry (fs : Fields) : Type 0 where
  pub bounded : fs.count ≤ user_fields_count
  pub indexed :
      (name : Text) (i : ℕ)
      → StdMap.find name fs.fields_index ≡ some i
      → (i < fs.count) × ((fs.fields_def i).name ≡ name)
  pub listed : (i : ℕ) → i < fs.count → StdMap.find (fs.fields_def i).name fs.fields_index ≡ some i

pub new_fields-IsRegistry : (memory : ℕ → FieldDef) → IsRegistry (new_fields memory)
unfolding new_fields StdMap.find
new_fields-IsRegistry memory = record {
  bounded = omega arith;
  indexed = λ name i e. cc;
  listed = λ i h. absurd (omega (arith, h));
}

-- A field of this name is not there, and there is room for it.
pub record IsFree (name : Text) (fs : Fields) : Type 0 where
  pub open_for : fs.frozen ≡ false
  pub room : fs.count < user_fields_count
  pub missing : StdMap.find name fs.fields_index ≡ none

-- The registry with one more field.
abbrev pub extended : Text → FieldType → Fields → Fields
extended name type fs = record fs {
  fields_def = λ i. if i == fs.count then record { name = name; type = type } else fs.fields_def i;
  fields_index = (StdMap.insert name fs.count fs.fields_index).0;
  count = fs.count + 1;
}

get_id_missing :
    (name : Text) (fs : Fields)
    → StdMap.find name fs.fields_index ≡ none
    → get_id name fs ≡ field_id_unknown
unfolding get_id
get_id_missing name fs e = rw (e, get_id) refl

get_id_found :
    (name : Text) (fs : Fields) (i : ℕ)
    → StdMap.find name fs.fields_index ≡ some i
    → i < user_fields_count
    → get_id name fs ≡ i
unfolding get_id
get_id_found name fs i e h = rw (e, get_id) (omega (arith, h))

add-IsFree :
    (name : Text) (type : FieldType) (fs : Fields)
    → IsFree name fs
    → add name type fs ≡ (extended name type fs, true)
unfolding add
add-IsFree name type fs h =
    let small : leb user_fields_count fs.count ≡ false = ground (arith, h.room) in
    ground (arith, h.open_for, small, get_id_missing name fs h.missing)

-- Why add refuses a field: the structure is frozen, it is full, or the name is taken.
abbrev pub IsRefused : Text → Fields → Type 0
IsRefused name fs =
    (fs.frozen ≡ true)
    ⊎ ((fs.count ≡ user_fields_count)
        ⊎ ((i : ℕ) × (i < fs.count) × ((fs.fields_def i).name ≡ name)))

add_cases :
    (name : Text) (type : FieldType) (fs : Fields)
    → IsRegistry fs
    → (IsFree name fs) ⊎ ((add name type fs ≡ (fs, false)) × IsRefused name fs)
unfolding add
add_cases name type fs h = elim (Bool-cases fs.frozen) [
  | inl frozen ↦ inr (ground (arith, frozen), inl frozen)
  | inr thawed ↦ elim (Bool-cases (leb user_fields_count fs.count)) [
    | inl full ↦ inr (ground (arith, thawed, full), inr (inl (ground (arith, h.bounded))))
    | inr room ↦ elim (Option-cases (StdMap.find name fs.fields_index)) [
      | inl missing ↦ inl (record { open_for = thawed; room = ground arith; missing = missing })
      | inr (i, found) ↦
          let there = h.indexed name i found in
          let known : get_id name fs ≡ i =
            get_id_found name fs i found (omega (arith, there.0, h.bounded)) in
          let taken : (i == field_id_unknown) ≡ false = ground (arith, there.0, h.bounded) in
          inr (ground (arith, thawed, room, known, taken), inr (inr (i, there.0, there.1)))
    ]
  ]
]

extended-IsRegistry :
    (name : Text) (type : FieldType) (fs : Fields)
    → IsFree name fs
    → IsRegistry fs
    → IsRegistry (extended name type fs)
extended-IsRegistry name type fs free h = record {
  bounded = omega (arith, free.room);
  indexed = λ k i e. known k i (sym (found k) ∙ e);
  listed = λ i lt. found _ ∙ there i lt (Bool-cases (i == fs.count));
}
  where
    found :
        (k : Text)
        → StdMap.find k (StdMap.insert name fs.count fs.fields_index).0
          ≡ (if text_eq name k then some fs.count else StdMap.find k fs.fields_index)
    found k =
        ap (λ (r : StdMap ℕ × Bool × ℕ). StdMap.find k r.0)
          (insert_new name fs.count fs.fields_index free.missing)
        ∙ find-place name k fs.count fs.fields_index free.missing

    known :
        (k : Text) (i : ℕ)
        → (if text_eq name k then some fs.count else StdMap.find k fs.fields_index) ≡ some i
        → (i < fs.count + 1)
          × ((if i == fs.count then record { name = name; type = type } else fs.fields_def i).name
              ≡ k)
    known k i e = ground (arith, h.indexed k i, text_eq_iff name k)

    there :
        (i : ℕ)
        → i < fs.count + 1
        → ((i == fs.count) ≡ true) ⊎ ((i == fs.count) ≡ false)
        → (let k =
              (if i == fs.count
                then record { name = name; type = type }
                else fs.fields_def i).name in
            (if text_eq name k then some fs.count else StdMap.find k fs.fields_index) ≡ some i)
    there i lt (inl new) = rw new (rw (text_eq_refl name) (ground arith))
    there i lt (inr old) = rw old (
        let low : i < fs.count = ground arith in
        let other : text_eq name (fs.fields_def i).name ≡ false =
          ground (arith, text_eq_iff name (fs.fields_def i).name, h.listed i low, free.missing) in
        rw other (h.listed i low))

-- add keeps the registry well formed, whatever it answers.
pub add-IsRegistry :
    (name : Text) (type : FieldType) (fs : Fields) → IsRegistry fs → IsRegistry (add name type fs).0
add-IsRegistry name type fs h = elim (add_cases name type fs h) [
  | inl free ↦
      subst (λ (r : Fields × Bool). IsRegistry r.0) (sym (add-IsFree name type fs free))
        (extended-IsRegistry name type fs free h)
  | inr (refused, why) ↦ subst (λ (r : Fields × Bool). IsRegistry r.0) (sym refused) h
]

-- The new field has the next id, and the older fields stay.
pub record IsAdded (name : Text) (type : FieldType) (old new : Fields) : Type 0 where
  pub id : get_id name new ≡ old.count
  pub type_there : get_type old.count new ≡ type
  pub name_there : get_name old.count new ≡ name
  pub older :
      (i : ℕ)
      → i < old.count
      → (get_type i new ≡ get_type i old) × (get_name i new ≡ get_name i old)

extended-IsAdded :
    (name : Text) (type : FieldType) (fs : Fields)
    → IsFree name fs
    → IsAdded name type fs (extended name type fs)
unfolding get_type get_name
extended-IsAdded name type fs free = record {
  id =
      get_id_found name (extended name type fs) fs.count
        (ap (λ (r : StdMap ℕ × Bool × ℕ). StdMap.find name r.0)
            (insert_new name fs.count fs.fields_index free.missing)
          ∙ find-place name name fs.count fs.fields_index free.missing
          ∙ ap (λ (b : Bool). if b then some fs.count else StdMap.find name fs.fields_index)
              (text_eq_refl name))
        free.room;
  type_there = ground arith;
  name_there = ground arith;
  older = λ i h. (ground (arith, h), ground (arith, h));
}

-- In a registry of fields whose index and definitions agree, add either refuses and changes
-- nothing, because the registry is frozen, has 8 fields or has the name already, or it answers
-- true, the name then has the next id, which has the name and the type given, and the names and
-- types of the older ids stay.
pub add_outcome :
    (name : Text) (type : FieldType) (fs : Fields)
    → IsRegistry fs
    → ((add name type fs ≡ (fs, false)) × IsRefused name fs)
      ⊎ (((add name type fs).1 ≡ true) × IsAdded name type fs (add name type fs).0)
add_outcome name type fs h = elim (add_cases name type fs h) [
  | inl free ↦
      let done = add-IsFree name type fs free in
      inr (
        ap (λ (r : Fields × Bool). r.1) done,
        subst (λ (r : Fields × Bool). IsAdded name type fs r.0) (sym done)
            (extended-IsAdded name type fs free),
      )
  | inr refused ↦ inl refused
]

-- ===== src/Fields/Frozen.antt =====
-- User::fields_init of src/user.cc, which gives a user one object per field of the registry and freezes
-- it, and the commands on the fields of src/field.cc. A state of the server is the registry with the
-- fields of its users, and the commands come one after the other.
use topy.Prelude.{
  ℕ, zero, suc, ◌%◌, ◌^◌, ◌≡◌, refl, sym, ap, subst, ◌∙◌, ◌⊎◌, inl, inr, Text, Bool, true, List, [],
  ◌∷◌, ℤ, ◌==◌, if◌then◌else◌, arith, Bool-cases,
}
use topy.Field
use topy.Field.{Field, FieldType, type_of, new_field}
use topy.Field.Rules.{score}
use topy.Logs
use topy.Fields.{Fields, FieldDef, new_fields, add, get_type, freeze}
use topy.StatsVector.Loops.{Cells}
use topy.Timer.{Timer}

pub record Server : Type 0 where
  pub fields : Fields
  pub users : List (ℕ → Field)

-- User::fields_init: the fields, and the frozen registry.
unfoldable pub fields_init : Cells → Fields → (ℕ → Field) × Fields
fields_init memory fs = (λ i. new_field memory (get_type i fs), freeze fs)

-- What a command does to one field of a user, its arguments read: `add`, `set`, `clear`, the update of
-- `get`, `insert [unique]` with its date, `total set`, and the score of a ranking.
pub data FieldCommand : Type 0 where
  add_command : Cells → Timer → ℤ → FieldCommand
  set_command : Text → FieldCommand
  clear_command : FieldCommand
  update_command : Cells → Timer → FieldCommand
  insert_command : Bool → ℤ → ℤ → FieldCommand
  total_set_command : ℕ → FieldCommand
  score_command : Timer → ℤ → FieldCommand

-- insert is a command of the two logs; it is not valid on another field.
unfoldable pub run_insert : Bool → ℤ → ℤ → Field → Field
run_insert unique n date (Field.field_ulog f) = Field.field_ulog (Logs.insert_query unique n date f)
run_insert unique n date (Field.field_log f) = Field.field_log (Logs.insert_query unique n date f)
run_insert unique n date f = f

-- `total set` is a command of the events; the value is of `unsigned int`.
unfoldable pub total_set : ℕ → Field → Field
total_set value (Field.field_events f) = Field.field_events (record f { total = value % 2 ^ 32 })
total_set value f = f

unfoldable pub run : FieldCommand → Field → Field
unfolding run_insert total_set
run (add_command memory timer n) f = Field.add memory timer n f
run (set_command value) f = (Field.set value f).0
run clear_command f = Field.clear f
run (update_command memory timer) f = Field.update memory timer f
run (insert_command unique n date) f = run_insert unique n date f
run (total_set_command value) f = total_set value f
run (score_command timer rule) f = (score timer rule f).1

-- *field[i] of user u
abbrev pub with_field : ℕ → FieldCommand → (ℕ → Field) → ℕ → Field
with_field i command u j = if j == i then run command (u j) else u j

abbrev pub at_user : {A : Type 0} → (A → A) → ℕ → List A → List A
at_user f n [] = []
at_user f zero (x ∷ xs) = f x ∷ xs
at_user f (suc n) (x ∷ xs) = x ∷ at_user f n xs

-- One step of the server. revive_user is the undel of User.
pub data Step : Server → Server → Type 0 where
  add_field :
      (s : Server) (name : Text) (type : FieldType)
      → Step s (record s { fields = (add name type s.fields).0 })
  create_user :
      (s : Server) (memory : Cells)
      → Step s (record {
        fields = (fields_init memory s.fields).1;
        users = (fields_init memory s.fields).0 ∷ s.users;
      })
  revive_user :
      (s : Server) (n : ℕ) (memory : Cells)
      → Step s (record {
        fields = (fields_init memory s.fields).1;
        users = at_user (λ u. (fields_init memory s.fields).0) n s.users;
      })
  field_command :
      (s : Server) (n i : ℕ) (command : FieldCommand)
      → Step s (record s { users = at_user (with_field i command) n s.users })

-- The states that a new server gets into.
pub data Reachable : Server → Type 0 where
  start : (memory : ℕ → FieldDef) → Reachable (record { fields = new_fields memory; users = [] })
  after : (s t : Server) → Reachable s → Step s t → Reachable t

type_of-new_field : (memory : Cells) (t : FieldType) → type_of (new_field memory t) ≡ t
unfolding type_of new_field
type_of-new_field memory Field.events = refl
type_of-new_field memory Field.marks = refl
type_of-new_field memory Field.int = refl
type_of-new_field memory Field.uint = refl
type_of-new_field memory Field.ulog = refl
type_of-new_field memory Field.log = refl
type_of-new_field memory Field.timestamp = refl
type_of-new_field memory Field.unknown = refl

type_of-run_insert :
    (unique : Bool) (n date : ℤ) (f : Field) → type_of (run_insert unique n date f) ≡ type_of f
unfolding type_of run_insert
type_of-run_insert unique n date (Field.field_events f) = refl
type_of-run_insert unique n date (Field.field_marks f) = refl
type_of-run_insert unique n date (Field.field_int f) = refl
type_of-run_insert unique n date (Field.field_ulog f) = refl
type_of-run_insert unique n date (Field.field_log f) = refl
type_of-run_insert unique n date (Field.field_timestamp f) = refl
type_of-run_insert unique n date Field.no_field = refl

type_of-total_set : (value : ℕ) (f : Field) → type_of (total_set value f) ≡ type_of f
unfolding type_of total_set
type_of-total_set value (Field.field_events f) = refl
type_of-total_set value (Field.field_marks f) = refl
type_of-total_set value (Field.field_int f) = refl
type_of-total_set value (Field.field_ulog f) = refl
type_of-total_set value (Field.field_log f) = refl
type_of-total_set value (Field.field_timestamp f) = refl
type_of-total_set value Field.no_field = refl

type_of-score : (timer : Timer) (rule : ℤ) (f : Field) → type_of (score timer rule f).1 ≡ type_of f
unfolding type_of score
type_of-score timer rule (Field.field_events f) = refl
type_of-score timer rule (Field.field_marks f) = refl
type_of-score timer rule (Field.field_int f) = refl
type_of-score timer rule (Field.field_ulog f) = refl
type_of-score timer rule (Field.field_log f) = refl
type_of-score timer rule (Field.field_timestamp f) = refl
type_of-score timer rule Field.no_field = refl

type_of-run : (command : FieldCommand) (f : Field) → type_of (run command f) ≡ type_of f
unfolding type_of run Field.add Field.set Field.clear Field.update
type_of-run (add_command memory timer n) (Field.field_events f) = refl
type_of-run (add_command memory timer n) (Field.field_marks f) = refl
type_of-run (add_command memory timer n) (Field.field_int f) = refl
type_of-run (add_command memory timer n) (Field.field_ulog f) = refl
type_of-run (add_command memory timer n) (Field.field_log f) = refl
type_of-run (add_command memory timer n) (Field.field_timestamp f) = refl
type_of-run (add_command memory timer n) Field.no_field = refl
type_of-run (set_command value) (Field.field_events f) = refl
type_of-run (set_command value) (Field.field_marks f) = refl
type_of-run (set_command value) (Field.field_int f) = refl
type_of-run (set_command value) (Field.field_ulog f) = refl
type_of-run (set_command value) (Field.field_log f) = refl
type_of-run (set_command value) (Field.field_timestamp f) = refl
type_of-run (set_command value) Field.no_field = refl
type_of-run clear_command (Field.field_events f) = refl
type_of-run clear_command (Field.field_marks f) = refl
type_of-run clear_command (Field.field_int f) = refl
type_of-run clear_command (Field.field_ulog f) = refl
type_of-run clear_command (Field.field_log f) = refl
type_of-run clear_command (Field.field_timestamp f) = refl
type_of-run clear_command Field.no_field = refl
type_of-run (update_command memory timer) (Field.field_events f) = refl
type_of-run (update_command memory timer) (Field.field_marks f) = refl
type_of-run (update_command memory timer) (Field.field_int f) = refl
type_of-run (update_command memory timer) (Field.field_ulog f) = refl
type_of-run (update_command memory timer) (Field.field_log f) = refl
type_of-run (update_command memory timer) (Field.field_timestamp f) = refl
type_of-run (update_command memory timer) Field.no_field = refl
type_of-run (insert_command unique n date) f = type_of-run_insert unique n date f
type_of-run (total_set_command value) f = type_of-total_set value f
type_of-run (score_command timer rule) f = type_of-score timer rule f

-- Every field of every user is an object of the type that the registry says.
abbrev pub AllTyped : Fields → List (ℕ → Field) → Type 0
AllTyped fs [] = Unit {0}
AllTyped fs (u ∷ us) = ((i : ℕ) → type_of (u i) ≡ get_type i fs) × AllTyped fs us

-- With users, the registry is frozen.
abbrev pub IsGuarded : Server → Type 0
IsGuarded s = (s.users ≡ []) ⊎ (s.fields.frozen ≡ true)

add_frozen :
    (name : Text) (type : FieldType) (fs : Fields) → fs.frozen ≡ true → (add name type fs).0 ≡ fs
unfolding add
add_frozen name type fs h = ground (arith, h)

AllTyped-at_user :
    (fs : Fields) (i : ℕ) (command : FieldCommand) (n : ℕ) (us : List (ℕ → Field))
    → AllTyped fs us
    → AllTyped fs (at_user (with_field i command) n us)
AllTyped-at_user fs i command n [] h = tt
AllTyped-at_user fs i command zero (u ∷ us) h = (typed, h.1)
  where
    typed : (j : ℕ) → type_of (with_field i command u j) ≡ get_type j fs
    typed j = elim (Bool-cases (j == i)) [
      | inl here ↦ rw here (type_of-run command (u j) ∙ h.0 j)
      | inr elsewhere ↦ rw elsewhere (h.0 j)
    ]
AllTyped-at_user fs i command (suc n) (u ∷ us) h = (h.0, AllTyped-at_user fs i command n us h.1)

AllTyped-revived :
    (fs : Fields) (v : ℕ → Field) (n : ℕ) (us : List (ℕ → Field))
    → ((i : ℕ) → type_of (v i) ≡ get_type i fs)
    → AllTyped fs us
    → AllTyped fs (at_user (λ u. v) n us)
AllTyped-revived fs v n [] e h = tt
AllTyped-revived fs v zero (u ∷ us) e h = (e, h.1)
AllTyped-revived fs v (suc n) (u ∷ us) e h = (h.0, AllTyped-revived fs v n us e h.1)

AllTyped-same :
    (fs gs : Fields) (us : List (ℕ → Field))
    → ((i : ℕ) → get_type i gs ≡ get_type i fs)
    → AllTyped fs us
    → AllTyped gs us
AllTyped-same fs gs [] e h = tt
AllTyped-same fs gs (u ∷ us) e h = ((λ i. h.0 i ∙ sym (e i)), AllTyped-same fs gs us e h.1)

get_type-freeze : (fs : Fields) (i : ℕ) → get_type i (freeze fs) ≡ get_type i fs
unfolding get_type freeze
get_type-freeze fs i = refl

Step-kept :
    (s t : Server)
    → Step s t
    → IsGuarded s
    → AllTyped s.fields s.users
    → IsGuarded t × AllTyped t.fields t.users
unfolding fields_init freeze
Step-kept s _ (add_field _ name type) (inl empty) typed =
    (inl empty, subst (AllTyped (add name type s.fields).0) (sym empty) tt)
Step-kept s _ (add_field _ name type) (inr frozen) typed =
    let same = add_frozen name type s.fields frozen in
    (
      inr (ap (λ (fs : Fields). fs.frozen) same ∙ frozen),
      subst (λ (fs : Fields). AllTyped fs s.users) (sym same) typed,
    )
Step-kept s _ (create_user _ memory) guarded typed = (
  inr refl,
  (
    (λ i. type_of-new_field memory (get_type i s.fields) ∙ sym (get_type-freeze s.fields i)),
    AllTyped-same s.fields (freeze s.fields) s.users (get_type-freeze s.fields) typed,
  ),
)
Step-kept s _ (revive_user _ n memory) guarded typed = (
  inr refl,
  AllTyped-revived (freeze s.fields) (fields_init memory s.fields).0 n s.users
      (λ i. type_of-new_field memory (get_type i s.fields) ∙ sym (get_type-freeze s.fields i))
      (AllTyped-same s.fields (freeze s.fields) s.users (get_type-freeze s.fields) typed),
)
Step-kept s _ (field_command _ n i command) (inl empty) typed = (
  inl (ap (at_user (with_field i command) n) empty),
  AllTyped-at_user s.fields i command n s.users typed,
)
Step-kept s _ (field_command _ n i command) (inr frozen) typed =
    (inr frozen, AllTyped-at_user s.fields i command n s.users typed)

Reachable-kept : (s : Server) → Reachable s → IsGuarded s × AllTyped s.fields s.users
Reachable-kept _ (start memory) = (inl refl, tt)
Reachable-kept t (after s _ r step) =
    let before = Reachable-kept s r in Step-kept s t step before.0 before.1

-- In every state that a server gets into from the empty registry by adding fields, creating users,
-- reviving users with new fields, and running on their fields the commands add, set, insert (unique
-- or not) and total set, the clearing, the update and the score, in any order, each field of each
-- user has the type that the registry gives its id.
pub Reachable-AllTyped : (s : Server) → Reachable s → AllTyped s.fields s.users
Reachable-AllTyped s r = (Reachable-kept s r).1

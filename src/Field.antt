-- ===== src/Field.antt =====
-- The class Field of src/field.cc with its subclasses as one type, its virtual methods by cases, and
-- User::fields_init of src/user.cc. `timer` is the timer as its refresh leaves it; new vectors are made
-- over the memory given.
pub mod Rules
pub mod Dump
use topy.Prelude.{
  ℕ, Text, codes, Bool, true, false, not, ◌&&◌, Option, none, some, List, [], ◌∷◌, ◌++◌, ℤ, pos,
  negsuc, text_eq, ◌==◌, if◌then◌else◌,
}
use topy.Events
use topy.Events.{FieldEvents, EventsRule, new_events, clear_events}
use topy.Logs
use topy.Logs.{LogField, ulog_len, log_len, new_log, clear_log}
use topy.Marks
use topy.Marks.{FieldMarks, MarksRule, new_marks, clear_marks}
use topy.Values.{
  FieldInt, FieldTimestamp, new_int, new_timestamp, add_int, add_timestamp, set_int, set_timestamp,
  clear_int, clear_timestamp, score_int, score_timestamp,
}
use topy.StatsVector.Loops.{Cells}
use topy.Timer.{Timer}

-- Fields::FieldType
pub data FieldType : Type 0 where
  events marks int uint ulog log timestamp unknown : FieldType

-- `no_field` is a pointer that nothing was stored in.
pub data Field : Type 0 where
  field_events : FieldEvents → Field
  field_marks : FieldMarks → Field
  field_int : FieldInt → Field
  field_ulog : LogField → Field
  field_log : LogField → Field
  field_timestamp : FieldTimestamp → Field
  no_field : Field

-- Fields::get_type_name
unfoldable pub get_type_name : FieldType → Text
get_type_name events = codes "events"
get_type_name marks = codes "marks"
get_type_name int = codes "int"
get_type_name uint = codes "uint"
get_type_name ulog = codes "ulog"
get_type_name log = codes "log"
get_type_name timestamp = codes "timestamp"
get_type_name unknown = codes "UNKNOWN"

-- Fields::get_type(name)
unfoldable pub type_named : Text → FieldType
type_named name =
    if text_eq name (codes "events")
    then events
    else if text_eq name (codes "marks")
    then marks
    else if text_eq name (codes "int")
    then int
    else if text_eq name (codes "uint")
    then uint
    else if text_eq name (codes "ulog")
    then ulog
    else if text_eq name (codes "log")
    then log
    else if text_eq name (codes "timestamp")
    then timestamp
    else unknown

-- name(); the type that its class and its sign stand for.
unfoldable pub type_of : Field → FieldType
type_of (field_events f) = events
type_of (field_marks f) = marks
type_of (field_int f) = if f.is_unsigned then uint else int
type_of (field_ulog f) = ulog
type_of (field_log f) = log
type_of (field_timestamp f) = timestamp
type_of no_field = unknown

unfoldable pub name : Field → Text
unfolding type_of get_type_name
name f = get_type_name (type_of f)

-- The switch of User::fields_init, with alloc.
unfoldable pub new_field : Cells → FieldType → Field
unfolding new_int
new_field memory events = field_events (new_events memory)
new_field memory marks = field_marks (new_marks memory)
new_field memory int = field_int (new_int false)
new_field memory uint = field_int (new_int true)
new_field memory ulog = field_ulog (new_log ulog_len memory memory)
new_field memory log = field_log (new_log log_len memory memory)
new_field memory timestamp = field_timestamp new_timestamp
new_field memory unknown = no_field

module _ (memory : Cells) (timer : Timer) where
  unfoldable pub update : Field → Field
  update (field_events f) = field_events (Events.update timer f)
  update (field_marks f) = field_marks (Marks.update timer f)
  update f = f

  unfoldable pub add : ℤ → Field → Field
  unfolding add_int
  add n (field_events f) = field_events (Events.add memory timer n f)
  add n (field_marks f) = field_marks (Marks.add memory timer n f)
  add n (field_int f) = field_int (add_int n f)
  add n (field_ulog f) = field_ulog (Logs.insert n (pos timer.now) f)
  add n (field_log f) = field_log (Logs.insert n (pos timer.now) f)
  add n (field_timestamp f) = field_timestamp (add_timestamp timer f)
  add n no_field = no_field

-- set, and whether it is done.
unfoldable pub set : Text → Field → Field × Bool
unfolding set_int
set value (field_events f) = (field_events f, false)
set value (field_marks f) = (field_marks f, false)
set value (field_int f) = let (g, done) = set_int value f in (field_int g, done)
set value (field_ulog f) = (field_ulog f, true)
set value (field_log f) = (field_log f, true)
set value (field_timestamp f) = let (g, done) = set_timestamp value f in (field_timestamp g, done)
set value no_field = (no_field, false)

unfoldable pub clear : Field → Field
unfolding clear_int
clear (field_events f) = field_events (clear_events f)
clear (field_marks f) = field_marks (clear_marks f)
clear (field_int f) = field_int (clear_int f)
clear (field_ulog f) = field_ulog (clear_log f)
clear (field_log f) = field_log (clear_log f)
clear (field_timestamp f) = field_timestamp (clear_timestamp f)
clear no_field = no_field

-- last_update, as a time_t
unfoldable pub last_update : Field → ℤ
last_update (field_events f) = Events.last_update f
last_update (field_marks f) = pos 0
last_update (field_int f) = pos 0
last_update (field_ulog f) = Logs.last_update f
last_update (field_log f) = Logs.last_update f
last_update (field_timestamp f) = f.value
last_update no_field = pos 0

-- ===== src/Logs.antt =====
-- The classes FieldUlog and FieldLog of src/field.cc, which have the same methods over vectors of 50
-- and of 5000 items: the items of a user, the newest first, each with its date.
pub mod Items
pub mod Unique
pub mod Length
pub mod Dump
use topy.Prelude.{
  ℕ, zero, suc, ◌^◌, Bool, true, false, not, ℤ, pos, negsuc, residue, to_int32, if◌then◌else◌,
}
use topy.StatsVector.{
  uint32_t, int64_t, StatsVector, new_vector, clear, get_sample, set_sample, translate, del, find,
  int_eq,
}
use topy.StatsVector.Loops.{Cells}

abbrev pub ulog_len : ℕ
ulog_len = 50

abbrev pub log_len : ℕ
log_len = 5000

pub record LogField : Type 0 where
  pub items : StatsVector
  pub dates : StatsVector

-- The constructor, for ULOG_LEN or LOG_LEN items.
unfoldable pub new_log : ℕ → Cells → Cells → LogField
new_log len memory memory' = record {
  items = new_vector uint32_t len true memory;
  dates = new_vector int64_t len true memory';
}

pub clear_log : LogField → LogField
clear_log f = record { items = clear f.items; dates = clear f.dates }

-- The test is on n, not on the position; a position of -1 is a large unsigned number.
unfoldable pub del_item : ℤ → LogField → LogField
unfolding del
del_item n f =
    let p = residue (2 ^ 32) (find f.items n) in
    if int_eq n (negsuc 0)
    then f
    else record { items = (del f.items p).0; dates = (del f.dates p).0 }

pub push_front : StatsVector → ℤ → StatsVector
push_front v n = (set_sample (translate v 1) 0 n).0

unfoldable pub insert : ℤ → ℤ → LogField → LogField
unfolding push_front
insert n date f = record { items = push_front f.items n; dates = push_front f.dates date }

-- The command insert [unique] <id> [,<date>], once its arguments are read.
unfoldable pub insert_query : Bool → ℤ → ℤ → LogField → LogField
insert_query unique n date f = insert n date (if unique then del_item n f else f)

pub score : LogField → ℤ
score f = to_int32 f.items.count

pub last_update : LogField → ℤ
last_update f = get_sample f.dates 0

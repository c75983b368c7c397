-- ===== src/Server.antt =====
-- The text dump of the whole server: ServerTopy::dump_txt and ServerTopy::restore_txt of src/server.cc.
-- The file is its text.
pub mod RoundTrip
use topy.Prelude.{ℕ, Text, List, [], ◌∷◌, ℤ}
use topy.Field.{Field}
use topy.Fields
use topy.Fields.{Fields, Message}
use topy.Groups.{Groups}
use topy.Groups.Dump as GroupsDump
use topy.Parser.{Parser, Parsed, ok, threw, undefined, open_text}
use topy.Parser.Restoring.{Restored, done, stopped, broken, and_then, inside}
use topy.StatsVector.Loops.{Cells}
use topy.Users.{HashTable, Users}
use topy.Users.Dump as UsersDump

-- What the registries hold; the fields are those of the configuration.
pub record State (T : Type 0) : Type 0 where
  pub groups : Groups
  pub users : Users T Field

-- The answer of restore_txt: true, with the messages of the fields, or false, with the message of the
-- parser and its line (what the fields have logged before is left out), each with the state that the
-- server is in then.
pub data Answer (T : Type 0) : Type 0 where
  restored : List Message → State T → Answer T
  parse_error : Text → ℕ → State T → Answer T
  crashed : Answer T

unfoldable pub dump_txt : {T : Type 0} → Fields → State T → Text
dump_txt fs s = Fields.dump fs (GroupsDump.dump s.groups (UsersDump.dump fs.count s.users []))

module _ {T : Type 0} (failed : Text → ℤ) (memory : Cells) (table : HashTable T) (fs : Fields) where
  -- The restores of the groups and the users in the try block.
  unfoldable pub restore_parts : State T → Parser → Restored (State T)
  restore_parts s p =
      and_then
        (λ t q.
          inside (λ users. record t { users = users })
            (UsersDump.restore failed memory table fs fs.count t.users q))
        (inside (λ groups. record s { groups = groups }) (GroupsDump.restore failed s.groups p))

  unfoldable pub answer : List Message → Restored (State T) → Answer T
  answer messages (done s p) = restored messages s
  answer messages (stopped s p) = parse_error p.error_msg p.line s
  answer messages broken = crashed

  -- The try block: the fields are read first.
  unfoldable pub answer_fields : State T → Parsed (List Message) → Answer T
  unfolding restore_parts answer
  answer_fields s (ok messages q) = answer messages (restore_parts s q)
  answer_fields s (threw q) = parse_error q.error_msg q.line s
  answer_fields s undefined = crashed

  -- restore_txt, with a new parser
  unfoldable pub restore_txt : Text → Parser → State T → Answer T
  unfolding answer_fields open_text
  restore_txt text p s = answer_fields s (Fields.restore failed fs (open_text text p))

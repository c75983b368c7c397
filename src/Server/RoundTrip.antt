-- ===== src/Server/RoundTrip.antt =====
-- ServerTopy::dump_txt and ServerTopy::restore_txt of src/server.cc, one after the other.
use topy.Prelude.{◌+◌, ◌^◌, ◌<◌, ◌≡◌, ap, ◌∙◌, Text, List, [], ℤ, map, length}
use topy.Field.{Field}
use topy.Fields.{Fields}
use topy.Fields.RoundTrip as FieldsTrip
use topy.Groups.{Groups, new_groups}
use topy.Groups.Dump as GroupsDump
use topy.Groups.Dump.RoundTrip as GroupsTrip
use topy.Groups.Ids.{IsFresh}
use topy.Parser.{Parser, open_text}
use topy.Parser.Reading.{lines}
use topy.Parser.Restoring.{Restored, and_then, inside}
use topy.Server.{State, restored, dump_txt, restore_parts, answer, answer_fields, restore_txt}
use topy.StatsVector.Loops.{Cells}
use topy.StdMap.Laws.{IsOrdered}
use topy.Users.{HashTable, FieldMethods, User, Users}
use topy.Users.Dump as UsersDump
use topy.Users.Dump.Entered.{read_user, enter_all, AllDumped, AllEntered}
use topy.Users.Dump.Whole as UsersWhole
use topy.Users.Lists.{IsStore}

module _ {T : Type 0} (table : HashTable T) (methods : FieldMethods Field) (s : State T)
    (store : IsStore table methods s.users) (failed : Text → ℤ) (memory : Cells) (fs : Fields) where
  -- Everything that is dumped can be read.
  pub record IsDumped : Type 0 where
    pub few_fields : fs.count < 256
    pub fields : FieldsTrip.IsDumped fs
    pub ordered : IsOrdered s.groups.list
    pub groups : GroupsTrip.IsDumped s.groups.list
    pub few_groups : length s.groups.list < 2 ^ 31
    pub users :
        AllDumped table failed memory fs fs.count (UsersWhole.dumped table methods s.users store)
    pub few_users : length (UsersWhole.dumped table methods s.users store) < 2 ^ 31

  -- The users of the dump, entered into those of `new`.
  abbrev pub users_read : List (User Field)
  users_read = map (read_user memory fs fs.count) (UsersWhole.dumped table methods s.users store)

  -- restore_txt of a server with the same fields and no groups, on the text that dump_txt wrote,
  -- answers without an error and without a message: it has the same groups, with an id counter
  -- behind all of them, and every user of the store that is not deleted is entered, one after the
  -- other, with its id, its group and its fields, and the table finds each of them under its id
  -- afterwards; the table and the two lists must hold the same users, each once and by its id, the
  -- names of fields and groups and the ids of users be C strings that can be read back (without the
  -- byte 255, the ids also without a backslash), the ids and masks of groups and the groups of
  -- users be below 2^31, the fields of users be dumped in the limits of `int` into fields of the
  -- same class, the fields be fewer than 256, and the groups and the users fewer than 2^31.
  pub restore_txt-dump_txt :
      (users : Users T Field) (p : Parser)
      → IsDumped
      → (restore_txt failed memory table fs
            (dump_txt fs s)
            p
            (record { groups = new_groups; users = users })
          ≡ restored [] (record {
            groups = GroupsTrip.restored_groups s.groups;
            users = enter_all table users_read users;
          }))
        × ((GroupsTrip.restored_groups s.groups).list ≡ s.groups.list)
        × IsFresh (GroupsTrip.restored_groups s.groups)
        × AllEntered table users_read (enter_all table users_read users)
  unfolding restore_txt restore_parts answer answer_fields dump_txt open_text
  restore_txt-dump_txt users p h =
      let start = record p { line = 1 } in
      let middle = lines (fs.count + 2) start in
      let groups =
        GroupsTrip.restore-dump_groups failed s.groups (UsersDump.dump fs.count s.users []) middle
          h.ordered h.groups h.few_groups in
      let last =
        UsersWhole.restore-dump_store table methods s.users store failed memory fs fs.count users []
          (lines (length s.groups.list + 2) middle) h.users h.few_users in
      let enter_users : State T → Parser → Restored (State T) = λ t q.
        inside (λ (users : Users T Field). record t { users = users })
          (UsersDump.restore failed memory table fs fs.count t.users q) in
      let new : State T = record { groups = new_groups; users = users } in
      let with_groups : State T = record {
        groups = GroupsTrip.restored_groups s.groups;
        users = users;
      } in
      (
        ap (answer_fields failed memory table fs new) (
              FieldsTrip.restore-dump_same failed fs
                (GroupsDump.dump s.groups (UsersDump.dump fs.count s.users [])) start h.fields
                h.few_fields)
            ∙ ap
                (λ (r : Restored Groups). answer failed memory table fs [] (
                  and_then enter_users
                    (inside (λ (groups : Groups). record new { groups = groups }) r)))
                groups.0
            ∙ ap
                (λ (r : Restored (Users T Field)).
                  answer failed memory table fs []
                    (inside (λ (us : Users T Field). record with_groups { users = us }) r))
                last.0,
        groups.1,
        groups.2,
        last.1,
      )

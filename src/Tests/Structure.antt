-- ===== src/Tests/Structure.antt =====
-- The theorems on the registry of fields and on the dump of the users at concrete inputs.
use topy.Prelude.{
  ℕ, zero, suc, ◌^◌, ◌<◌, ◌≤◌, ◌≡◌, ◌⊎◌, refl, Text, codes, true, false, List, [], ◌∷◌, ℤ, pos,
  arith, map, length,
}
use topy.Field
use topy.Field.{Field, FieldType}
use topy.Field.Rules.{get_rule_id, score}
use topy.Field.Rules.Names.{score-marks_rule_name}
use topy.Fields.{FieldDef, Fields, new_fields, add, get_type}
use topy.Fields.Frozen.{
  Server, Reachable, start, after, add_field, create_user, field_command, add_command, fields_init,
  at_user, with_field, AllTyped, Reachable-AllTyped,
}
use topy.Fields.Registry.{IsRefused, IsAdded, new_fields-IsRegistry, add_outcome}
use topy.Server.{State, restored, dump_txt, restore_txt}
use topy.Server.RoundTrip as ServerTrip
use topy.Groups.{Groups, new_groups}
use topy.Groups.Dump.RoundTrip as GroupsTrip
use topy.Groups.Ids.{IsFresh}
use topy.Marks
use topy.Marks.{new_marks, average, last2}
use topy.Parser.{Parser}
use topy.StatsVector.Loops.{Cells}
use topy.Tests.Population.{entries, lookup_entry}
use topy.Timer.{Timer}
use topy.Users.{User, Users, FieldMethods, user_find_or_create, user_add, allocate, new_user}
use topy.Field.Dump.RoundTrip as FieldTrip
use topy.Values.{new_int}
use topy.Users.Dump as UsersDump
use topy.Users.Dump.Entered.{read_user, enter_all, AllEntered, AllDumped}
use topy.Users.Dump.Whole as UsersWhole
use topy.Users.Lists.{IsStore}
use topy.Users.Store.{user_find_or_create-IsStore}

abbrev no_text : Parser
no_text = record { text = []; line = 1; error_msg = [] }

abbrev failing : Text → ℤ
failing s = pos 0

abbrev blank : Cells
blank i = pos 0

abbrev evening : Timer
evening = record { update = 0; lock_count = 0; now = 0; hour = 20; day = 3; month = 11; year = 108 }

abbrev no_defs : ℕ → FieldDef
no_defs i = record { name = []; type = FieldType.unknown }

score-marks_rule_name_example :
    score evening
      (get_rule_id (codes "last2::average") (Field.field_marks (new_marks blank)))
      (Field.field_marks (new_marks blank))
    ≡ (let (z, g) =
          Marks.score evening (record { range = last2; kind = average }) (new_marks blank) in
        (z, Field.field_marks g))
score-marks_rule_name_example =
    score-marks_rule_name evening (new_marks blank) (record { range = last2; kind = average })

add_outcome_example :
    ((add (codes "visits") FieldType.events (new_fields no_defs) ≡ (new_fields no_defs, false))
      × IsRefused (codes "visits") (new_fields no_defs))
    ⊎ (((add (codes "visits") FieldType.events (new_fields no_defs)).1 ≡ true)
        × IsAdded
            (codes "visits")
            FieldType.events
            (new_fields no_defs)
            (add (codes "visits") FieldType.events (new_fields no_defs)).0)
add_outcome_example =
    add_outcome (codes "visits") FieldType.events (new_fields no_defs)
      (new_fields-IsRegistry no_defs)

-- A field, a user, and an event of the user.
abbrev server_0 : Server
server_0 = record { fields = new_fields no_defs; users = [] }

abbrev server_1 : Server
server_1 = record { fields = (add (codes "visits") FieldType.events server_0.fields).0; users = [] }

abbrev server_2 : Server
server_2 = record {
  fields = (fields_init blank server_1.fields).1;
  users = (fields_init blank server_1.fields).0 ∷ [];
}

abbrev server_3 : Server
server_3 = record {
  fields = server_2.fields;
  users = at_user (with_field 0 (add_command blank evening (pos 1))) 0 server_2.users;
}

server_3-Reachable : Reachable server_3
server_3-Reachable =
    after server_2 server_3
      (after server_1 server_2
        (after server_0 server_1 (start no_defs)
          (add_field server_0 (codes "visits") FieldType.events))
        (create_user server_1 blank))
      (field_command server_2 0 0 (add_command blank evening (pos 1)))

Reachable-AllTyped_example : AllTyped server_3.fields server_3.users
Reachable-AllTyped_example = Reachable-AllTyped server_3 server_3-Reachable

-- A registry with one number.
abbrev one_field : Fields
one_field = record {
  fields_def = λ i. record { name = codes "karma"; type = FieldType.int };
  fields_index = (codes "karma", 0) ∷ [];
  count = 1;
  frozen = true;
}

-- Fields that are numbers, new ones 7.
abbrev seven : Field
seven = Field.field_int (record { value = pos 7; is_unsigned = false })

abbrev numbers : FieldMethods Field
numbers = record {
  created = λ i. seven;
  clear = Field.clear;
  last_update = Field.last_update;
  score = λ rule f. (pos 0, f);
}

abbrev nobody : Users (List (Text × ℕ)) Field
nobody = record {
  hash_table = [];
  vector = [];
  vector_new_users = [];
  heap = λ a. record { id = []; group = 0; deleted = true; field = λ i. seven };
  next = 0;
}

nobody-IsStore : IsStore entries numbers nobody
unfolding lookup_entry
nobody-IsStore = record {
  owned = λ id a e. absurd (cc e);
  found = λ a h. absurd (omega (arith, h));
}

-- A user of that kind.
abbrev ann_there : Users (List (Text × ℕ)) Field
unfolding user_find_or_create
ann_there = (user_find_or_create entries numbers true (codes "ann") nobody).0

ann_there-IsStore : IsStore entries numbers ann_there
unfolding user_find_or_create
ann_there-IsStore =
    user_find_or_create-IsStore entries numbers true (codes "ann") nobody nobody-IsStore

abbrev written : List (User Field)
written = UsersWhole.dumped entries numbers ann_there ann_there-IsStore

written-AllDumped : AllDumped entries failing blank one_field 1 written
unfolding user_find_or_create user_add allocate new_user lookup_entry UsersDump.present
    UsersDump.empty_user get_type Field.new_field new_int
written-AllDumped = (
  record {
    id = (ground arith, ground arith);
    ended = ground arith;
    group = omega arith;
    fields = go;
  },
  tt,
)
  where
    go :
        (j : ℕ)
        → 0 ≤ j
        → j < 1
        → FieldTrip.IsDumped ((UsersDump.empty_user blank one_field).field j) seven
    go zero a b = (refl, refl)
    go (suc j) a b = absurd (omega (arith, b))

written_few : length written < 2 ^ 31
unfolding user_find_or_create user_add allocate new_user lookup_entry UsersDump.present
written_few = omega arith

abbrev red_only : Groups
red_only = record { index_counter = 6; list = (codes "red", record { id = 5; mask = 0 }) ∷ [] }

abbrev numbers_server : State (List (Text × ℕ))
numbers_server = record { groups = red_only; users = ann_there }

numbers_server-IsDumped :
    ServerTrip.IsDumped entries numbers numbers_server ann_there-IsStore failing blank one_field
numbers_server-IsDumped = record {
  few_fields = omega arith;
  fields = λ i h. (ground arith, ground arith);
  ordered = (tt, tt);
  groups = (((ground arith, ground arith), omega arith, omega arith), tt);
  few_groups = omega arith;
  users = written-AllDumped;
  few_users = written_few;
}

restore_txt-dump_txt_example :
    (restore_txt failing blank entries one_field
        (dump_txt one_field numbers_server)
        no_text
        (record { groups = new_groups; users = nobody })
      ≡ restored [] (record {
        groups = GroupsTrip.restored_groups red_only;
        users = enter_all entries (map (read_user blank one_field 1) written) nobody;
      }))
    × ((GroupsTrip.restored_groups red_only).list ≡ red_only.list)
    × IsFresh (GroupsTrip.restored_groups red_only)
    × AllEntered entries
        (map (read_user blank one_field 1) written)
        (enter_all entries (map (read_user blank one_field 1) written) nobody)
restore_txt-dump_txt_example =
    ServerTrip.restore_txt-dump_txt entries numbers numbers_server ann_there-IsStore failing blank
      one_field nobody no_text numbers_server-IsDumped

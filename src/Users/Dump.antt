-- ===== src/Users/Dump.antt =====
-- dump and restore of a user and of the users: User of src/user.cc, VectorUsers and Users of
-- src/users.cc, in a build with ids that are strings. `size` is the number of fields.
pub mod RoundTrip
pub mod Entered
pub mod Whole
use topy.Prelude.{
  ℕ, zero, suc, ◌+◌, ◌^◌, Text, Bool, true, false, not, List, [], ◌∷◌, ◌++◌, ℤ, pos, negsuc,
  residue, pos_part, ◌==◌, if◌then◌else◌, map, length,
}
use topy.Decimal.{int_text}
use topy.Field.{Field, FieldType, new_field}
use topy.Field.Dump as FieldDump
use topy.Fields.{Fields, get_type}
use topy.Groups.{group_undef}
use topy.Parser.{Parse, Parser, Parsed, ok, pure, ◌>>=◌, ◌>>◌, read_int, read_str, waitfor}
use topy.Parser.Restoring.{Restored, done, reads, and_then, ends}
use topy.StatsVector.Loops.{Cells}
use topy.StringUtils.{addslashes}
use topy.Users.{HashTable, User, Users, store, vector_update}

-- What strndup keeps of a text.
abbrev pub c_str : Text → Text
c_str [] = []
c_str (c ∷ s) = if c == 0 then [] else c ∷ c_str s

-- The loop of User::dump over n fields from i on, in front of `rest`.
unfoldable pub dump_fields : ℕ → ℕ → (ℕ → Field) → Text → Text
dump_fields zero i fields rest = rest
dump_fields (suc n) i fields rest =
    b':' ∷ FieldDump.dump (fields i) (dump_fields n (i + 1) fields rest)

-- User::dump
unfoldable pub dump_user : ℕ → User Field → Text → Text
unfolding dump_fields
dump_user size u rest =
    b'u'
    ∷ b'{'
    ∷ b'"'
    ∷ (addslashes u.id
        ++ (b'"'
            ∷ b':'
            ∷ (int_text (pos u.group) ++ dump_fields size 0 u.field (b'}' ∷ 10 ∷ rest))))

unfoldable pub dump_list : ℕ → List (User Field) → Text → Text
unfolding dump_user
dump_list size [] rest = rest
dump_list size (u ∷ us) rest = dump_user size u (dump_list size us rest)

-- VectorUsers::dump, of users that are not deleted
unfoldable pub dump_vector : ℕ → List (User Field) → Text → Text
unfolding dump_list
dump_vector size us rest =
    b'U' ∷ b'{' ∷ (int_text (pos (length us)) ++ (b':' ∷ 10 ∷ dump_list size us (b'}' ∷ 10 ∷ rest)))

-- VectorUsers::select_all
unfoldable pub present : (ℕ → User Field) → List ℕ → List (User Field)
present heap [] = []
present heap (a ∷ l) =
    let later = present heap l in if (heap a).deleted then later else heap a ∷ later

-- Users::dump
unfoldable pub dump : {T : Type 0} → ℕ → Users T Field → Text → Text
unfolding dump_vector present
dump size us rest =
    let updated = vector_update us in dump_vector size (present updated.heap updated.vector) rest

-- new User(USER_ID_NULL, false). The vectors of its events and marks are null pointers in the source;
-- their restore makes new ones without a look at them, and a user that is not read to its end is lost.
unfoldable pub empty_user : Cells → Fields → User Field
empty_user memory fs = record {
  id = [];
  group = group_undef;
  deleted = false;
  field = λ i. new_field memory (get_type i fs);
}

-- What the loop of Users::restore does with the user it has read.
unfoldable pub enter : {T : Type 0} → HashTable T → User Field → Users T Field → Users T Field
enter table u us = record us {
  hash_table = table.insert u.id us.next us.hash_table;
  vector = us.vector ++ (us.next ∷ []);
  heap = store us.heap us.next u;
  next = us.next + 1;
}

module _ (failed : Text → ℤ) (memory : Cells) where
  -- The loop of User::restore over n fields from i on.
  unfoldable pub restore_fields : ℕ → ℕ → (ℕ → Field) → Parse (ℕ → Field)
  restore_fields zero i fields = pure fields
  restore_fields (suc n) i fields = do
    waitfor b':'
    f ← FieldDump.restore failed memory (fields i)
    restore_fields n (i + 1) (λ j. if j == i then f else fields j)

  -- User::restore
  unfoldable pub restore_user : ℕ → User Field → Parse (User Field)
  unfolding restore_fields
  restore_user size u = do
    waitfor b'u'
    waitfor b'{'
    str ← read_str
    waitfor b':'
    group ← read_int failed
    fields ← restore_fields size 0 u.field
    waitfor b'}'
    pure (record u { id = c_str str; group = residue (2 ^ 32) group; field = fields })

  unfoldable pub read_count : Parse ℤ
  read_count = do
    waitfor b'U'
    waitfor b'{'
    count ← read_int failed
    waitfor b':'
    waitfor 10
    pure count

  module _ {T : Type 0} (table : HashTable T) (fs : Fields) (size : ℕ) where
    -- The loop of restore: a user stays when the newline behind it is missing, and one that cannot be
    -- read is not entered.
    unfoldable pub restore_loop : ℕ → Users T Field → Parser → Restored (Users T Field)
    unfolding restore_user empty_user enter
    restore_loop zero us = done us
    restore_loop (suc n) us =
        reads us (restore_user size (empty_user memory fs))
          (λ u. reads (enter table u us) (waitfor 10) (λ _. restore_loop n (enter table u us)))

    -- Users::restore; a count below 0 is none.
    unfoldable pub restore : Users T Field → Parser → Restored (Users T Field)
    unfolding restore_loop read_count
    restore us = reads us read_count (λ count p. and_then ends (restore_loop (pos_part count) us p))

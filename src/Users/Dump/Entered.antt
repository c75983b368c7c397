-- ===== src/Users/Dump/Entered.antt =====
-- The loop of Users::restore of src/users.cc on the dump of a list of users, and the table afterwards.
use topy.Prelude.{
  ℕ, ◌+◌, ◌^◌, ◌<◌, ◌≡◌, refl, ap, ◌∙◌, Text, text_eq, text_eq_refl, Bool, false, some, List, [],
  ◌∷◌, ◌++◌, ℤ, pos, pos_part, ◌==◌, if◌then◌else◌, arith, map, length,
}
use topy.Field.{Field}
use topy.Fields.{Fields}
use topy.Decimal.{int_text}
use topy.Parser.{Parser, ok, waitfor}
use topy.Parser.Restoring.{done, reads, and_then, ends, reads_ok}
use topy.Parser.Reading.{read_int-then, lines, fits}
use topy.StatsVector.Loops.{Cells}
use topy.Users.{HashTable, User, Users}
use topy.Users.Dump.{
  dump_user, dump_list, dump_vector, empty_user, restore_user, enter, read_count, restore_loop,
  restore,
}
use topy.Users.Dump.RoundTrip.{IsDumped, restored_user, restore_user-dump_user}

-- The user that is read from the dump of u.
abbrev pub read_user : Cells → Fields → ℕ → User Field → User Field
read_user memory fs size u = restored_user memory size (empty_user memory fs) u

module _ {T : Type 0} (table : HashTable T) where
  -- The users, entered one after the other.
  unfoldable pub enter_all : List (User Field) → Users T Field → Users T Field
  enter_all [] us = us
  enter_all (v ∷ l) us = enter_all l (enter table v us)

  module _ (failed : Text → ℤ) (memory : Cells) (fs : Fields) (size : ℕ) where
    -- Every user of the list can be read into a new one.
    abbrev pub AllDumped : List (User Field) → Type 0
    AllDumped [] = Unit {0}
    AllDumped (u ∷ l) = IsDumped size (empty_user memory fs) u × AllDumped l

    restore_loop-dump_list :
        (l : List (User Field)) (us : Users T Field) (rest : Text) (p : Parser)
        → AllDumped l
        → restore_loop failed memory table fs size
            (length l)
            us
            (record p { text = dump_list size l rest })
          ≡ done
              (enter_all (map (read_user memory fs size) l) us)
              (record (lines (length l) p) { text = rest })
    unfolding restore_loop dump_list enter_all waitfor
    restore_loop-dump_list [] us rest p h =
        ap (λ (n : ℕ). done us (record p { text = rest; line = n })) {x = p.line} (omega arith)
    restore_loop-dump_list (u ∷ l) us rest p h =
        let more = enter table (read_user memory fs size u) us in
        reads_ok us (restore_user failed memory size (empty_user memory fs))
          (λ (v : User Field).
            reads (enter table v us) (waitfor 10)
              (λ _. restore_loop failed memory table fs size (length l) (enter table v us)))
          (record p { text = dump_user size u (dump_list size l rest) })
          (record p { text = 10 ∷ dump_list size l rest }) (read_user memory fs size u)
          (restore_user-dump_user failed memory size (empty_user memory fs) u
            (dump_list size l rest) p h.0)
        ∙ restore_loop-dump_list l more rest (lines 1 p) h.1
        ∙ ap
            (λ (n : ℕ).
              done (enter_all (map (read_user memory fs size) (u ∷ l)) us)
                (record p { text = rest; line = n }))
            {x = p.line + 1 + length l} (omega arith)

    read_count-dump :
        (n : ℕ) (rest : Text) (p : Parser)
        → n < 2 ^ 31
        → read_count failed memory
            (record p { text = b'U' ∷ b'{' ∷ (int_text (pos n) ++ (b':' ∷ 10 ∷ rest)) })
          ≡ ok (pos n) (record (lines 1 p) { text = rest })
    unfolding read_count waitfor
    read_count-dump n rest p few = read_int-then failed _ (pos n) b':' _ p (fits n few) refl

    pub restore-dump_vector :
        (l : List (User Field)) (us : Users T Field) (rest : Text) (p : Parser)
        → AllDumped l
        → length l < 2 ^ 31
        → restore failed memory table fs size us (record p { text = dump_vector size l rest })
          ≡ done
              (enter_all (map (read_user memory fs size) l) us)
              (record (lines (length l + 2) p) { text = rest })
    unfolding restore dump_vector waitfor
    restore-dump_vector l us rest p h few =
        reads_ok us (read_count failed memory)
          (λ (n : ℤ) (q : Parser).
            and_then ends (restore_loop failed memory table fs size (pos_part n) us q))
          (record p { text = dump_vector size l rest })
          (record (lines 1 p) { text = dump_list size l (b'}' ∷ 10 ∷ rest) }) (pos (length l))
          (read_count-dump (length l) (dump_list size l (b'}' ∷ 10 ∷ rest)) p few)
        ∙ ap (and_then ends) (restore_loop-dump_list l us (b'}' ∷ 10 ∷ rest) (lines 1 p) h)
        ∙ ap
            (λ (n : ℕ).
              done (enter_all (map (read_user memory fs size) l) us)
                (record p { text = rest; line = n }))
            {x = p.line + 1 + length l + 1} (omega arith)

  -- The user is found by its id.
  pub record IsEntered (v : User Field) (us : Users T Field) : Type 0 where
    pub address : ℕ
    pub found : table.lookup v.id us.hash_table ≡ some address
    pub there : us.heap address ≡ v
    pub below : address < us.next

  enter-IsEntered : (v : User Field) (us : Users T Field) → IsEntered v (enter table v us)
  unfolding enter
  enter-IsEntered v us = record {
    address = us.next;
    found =
        table.lookup_insert v.id v.id us.next us.hash_table
        ∙ ap (λ (b : Bool). if b then some us.next else table.lookup v.id us.hash_table)
            (text_eq_refl v.id);
    there = ground arith;
    below = omega arith;
  }

  enter-IsEntered_still :
      (w v : User Field) (us : Users T Field)
      → text_eq w.id v.id ≡ false
      → IsEntered v us
      → IsEntered v (enter table w us)
  unfolding enter
  enter-IsEntered_still w v us apart h = record {
    address = h.address;
    found =
        table.lookup_insert w.id v.id us.next us.hash_table
        ∙ ap (λ (b : Bool). if b then some us.next else table.lookup v.id us.hash_table) apart
        ∙ h.found;
    there = let old : (h.address == us.next) ≡ false = ground (arith, h.below) in rw old h.there;
    below = omega (arith, h.below);
  }

  -- No user of the list has this id.
  abbrev pub IsNew : Text → List (User Field) → Type 0
  IsNew id [] = Unit {0}
  IsNew id (u ∷ l) = (text_eq u.id id ≡ false) × IsNew id l

  abbrev pub IsDistinct : List (User Field) → Type 0
  IsDistinct [] = Unit {0}
  IsDistinct (u ∷ l) = IsNew u.id l × IsDistinct l

  abbrev pub AllEntered : List (User Field) → Users T Field → Type 0
  AllEntered [] us = Unit {0}
  AllEntered (v ∷ l) us = IsEntered v us × AllEntered l us

  enter_all-IsEntered :
      (v : User Field) (l : List (User Field)) (us : Users T Field)
      → IsNew v.id l
      → IsEntered v us
      → IsEntered v (enter_all l us)
  unfolding enter_all
  enter_all-IsEntered v [] us new h = h
  enter_all-IsEntered v (w ∷ l) us new h =
      enter_all-IsEntered v l (enter table w us) new.1 (enter-IsEntered_still w v us new.0 h)

  pub enter_all-AllEntered :
      (l : List (User Field)) (us : Users T Field) → IsDistinct l → AllEntered l (enter_all l us)
  unfolding enter_all
  enter_all-AllEntered [] us d = tt
  enter_all-AllEntered (v ∷ l) us d = (
    enter_all-IsEntered v l (enter table v us) d.0 (enter-IsEntered v us),
    enter_all-AllEntered l (enter table v us) d.1,
  )

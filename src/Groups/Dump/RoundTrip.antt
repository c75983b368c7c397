-- ===== src/Groups/Dump/RoundTrip.antt =====
-- Groups::dump and Groups::restore of src/groups.cc, one after the other.
use topy.Prelude.{
  ℕ, ◌+◌, ◌^◌, ◌<◌, ◌≡◌, refl, sym, ap, subst, ◌∙◌, Text, Bool, [], ◌∷◌, ◌++◌, ℤ, pos, residue,
  length, append_assoc, append-nil, arith,
}
use topy.Groups.{Group, Groups, new_groups, restore_group}
use topy.Decimal.{int_text}
use topy.Groups.Dump.{
  dump_group, dump_list, dump, read_group, restore_entry, restore_list, read_count, restore,
}
use topy.Parser.Restoring.{done, and_then, ends, reads_ok}
use topy.Parser.{Parser, ok, waitfor}
use topy.Parser.Reading.{read_int-then, read_until-then, lines, fits, same, IsReadable}
use topy.StdMap.{StdMap}
use topy.StdMap.Laws.{IsOrdered, insert_last}
use topy.Groups.Ids.{IsFresh, restore_group-IsFresh}

-- The names have no quote and no byte 255, and the numbers are values of `int`.
abbrev pub IsDumped : StdMap Group → Type 0
IsDumped [] = Unit {0}
IsDumped ((name, g) ∷ l) = (IsReadable b'"' name × (g.id < 2 ^ 31) × (g.mask < 2 ^ 31)) × IsDumped l

-- The entries, given to restore_group one after the other.
unfoldable pub restore_all : StdMap Group → Groups → Groups
restore_all [] gs = gs
restore_all ((name, g) ∷ l) gs = restore_all l (restore_group name g.id g.mask gs)

module _ (failed : Text → ℤ) where
  read_group-dump_group :
      (name : Text) (g : Group) (rest : Text) (p : Parser)
      → IsReadable b'"' name
      → g.id < 2 ^ 31
      → g.mask < 2 ^ 31
      → read_group failed (record p { text = dump_group name g rest })
        ≡ ok (name, g.id, g.mask) (record p { text = b'}' ∷ 10 ∷ rest })
  unfolding read_group dump_group waitfor
  read_group-dump_group name g rest p free id mask =
      read_until-then b'"' _ name _ p free
      ∙ read_int-then failed _ (pos g.id) b':' _ p (fits g.id id) refl
      ∙ read_int-then failed _ (pos g.mask) b'}' _ p (fits g.mask mask) refl
      ∙ ap
          (λ (i : ℕ).
            ok (name, i, residue (2 ^ 32) (pos g.mask)) (record p { text = b'}' ∷ 10 ∷ rest }))
          (same g.id id)
      ∙ ap (λ (m : ℕ). ok (name, g.id, m) (record p { text = b'}' ∷ 10 ∷ rest })) (same g.mask mask)

  restore_entry-dump_group :
      (name : Text) (g : Group) (gs : Groups) (rest : Text) (p : Parser)
      → IsReadable b'"' name
      → g.id < 2 ^ 31
      → g.mask < 2 ^ 31
      → restore_entry failed gs (record p { text = dump_group name g rest })
        ≡ done (restore_group name g.id g.mask gs) (record (lines 1 p) { text = rest })
  unfolding restore_entry waitfor
  restore_entry-dump_group name g gs rest p free id mask =
      reads_ok gs (read_group failed)
        (λ (read : Text × ℕ × ℕ). ends (restore_group read.0 read.1 read.2 gs))
        (record p { text = dump_group name g rest }) (record p { text = b'}' ∷ 10 ∷ rest })
        (name, g.id, g.mask) (read_group-dump_group name g rest p free id mask)

  restore_list-dump_list :
      (l : StdMap Group) (gs : Groups) (rest : Text) (p : Parser)
      → IsDumped l
      → restore_list failed (length l) gs (record p { text = dump_list l rest })
        ≡ done (restore_all l gs) (record (lines (length l) p) { text = rest })
  unfolding restore_list dump_list restore_all
  restore_list-dump_list [] gs rest p h =
      ap (λ (n : ℕ). done gs (record p { text = rest; line = n })) (omega arith)
  restore_list-dump_list ((name, g) ∷ l) gs rest p h =
      ap (and_then (restore_list failed (length l)))
        (restore_entry-dump_group name g gs (dump_list l rest) p h.0.0 h.0.1 h.0.2)
      ∙ restore_list-dump_list l (restore_group name g.id g.mask gs) rest (lines 1 p) h.1
      ∙ ap
          (λ (n : ℕ).
            done (restore_all l (restore_group name g.id g.mask gs))
              (record p { text = rest; line = n }))
          (omega arith)

  read_count-dump :
      (n : ℕ) (rest : Text) (p : Parser)
      → n < 2 ^ 31
      → read_count failed
          (record p { text = b'G' ∷ b'{' ∷ (int_text (pos n) ++ (b':' ∷ 10 ∷ rest)) })
        ≡ ok (pos n) (record (lines 1 p) { text = rest })
  unfolding read_count waitfor
  read_count-dump n rest p few = read_int-then failed _ (pos n) b':' _ p (fits n few) refl

restore_group_last :
    (name : Text) (g : Group) (l : StdMap Group) (gs : Groups)
    → IsOrdered (gs.list ++ ((name, g) ∷ l))
    → (restore_group name g.id g.mask gs).list ≡ gs.list ++ ((name, g) ∷ [])
unfolding restore_group
restore_group_last name g l gs o =
    ap (λ (r : StdMap Group × Bool × Group). r.0) (insert_last name g gs.list l o)

-- Entries in the order of their names are all kept.
list-restore_all :
    (l : StdMap Group) (gs : Groups)
    → IsOrdered (gs.list ++ l)
    → (restore_all l gs).list ≡ gs.list ++ l
unfolding restore_all
list-restore_all [] gs o = sym (append-nil gs.list)
list-restore_all ((name, g) ∷ l) gs o =
    let last = restore_group_last name g l gs o in
    list-restore_all l (restore_group name g.id g.mask gs) (
      subst IsOrdered
        (sym (ap (λ (m : StdMap Group). m ++ l) last ∙ append_assoc gs.list ((name, g) ∷ []) l)) o)
    ∙ ap (λ (m : StdMap Group). m ++ l) last
    ∙ append_assoc gs.list ((name, g) ∷ []) l

restore_all-IsFresh :
    (l : StdMap Group) (gs : Groups) → IsDumped l → IsFresh gs → IsFresh (restore_all l gs)
unfolding restore_all
restore_all-IsFresh [] gs h f = f
restore_all-IsFresh ((name, g) ∷ l) gs h f =
    restore_all-IsFresh l (restore_group name g.id g.mask gs) h.1
      (restore_group-IsFresh name g.id g.mask gs (omega (arith, h.0.1)) f)

-- The groups that a restore makes of the dump of gs.
unfoldable pub restored_groups : Groups → Groups
unfolding restore_all
restored_groups gs = restore_all gs.list new_groups

-- Groups::restore into new groups reads the text that Groups::dump writes, whatever follows it, and
-- gives the same names with their ids and masks, with the counter above all ids and the map
-- ordered; the map must be ordered by name, the names be without a quote and without the byte 255,
-- and the ids, the masks and the number of groups be below 2^31.
pub restore-dump_groups :
    (failed : Text → ℤ) (gs : Groups) (rest : Text) (p : Parser)
    → IsOrdered gs.list
    → IsDumped gs.list
    → length gs.list < 2 ^ 31
    → (restore failed new_groups (record p { text = dump gs rest })
        ≡ done (restored_groups gs) (record (lines (length gs.list + 2) p) { text = rest }))
      × ((restored_groups gs).list ≡ gs.list)
      × IsFresh (restored_groups gs)
unfolding restore dump waitfor restored_groups new_groups
restore-dump_groups failed gs rest p o h few =
    let count = length gs.list in
    (
      reads_ok new_groups (read_count failed)
            (λ (n : ℤ) (q : Parser).
              and_then ends (restore_list failed (residue (2 ^ 32) n) new_groups q))
            (record p { text = dump gs rest })
            (record (lines 1 p) { text = dump_list gs.list (b'}' ∷ 10 ∷ rest) }) (pos count)
            (read_count-dump failed count (dump_list gs.list (b'}' ∷ 10 ∷ rest)) p few)
          ∙ ap
              (λ (n : ℕ). and_then ends (
                restore_list failed n new_groups
                  (record (lines 1 p) { text = dump_list gs.list (b'}' ∷ 10 ∷ rest) })))
              (same count few)
          ∙ ap (and_then ends)
              (restore_list-dump_list failed gs.list new_groups (b'}' ∷ 10 ∷ rest) (lines 1 p) h)
          ∙ ap (λ (n : ℕ). done (restored_groups gs) (record p { text = rest; line = n }))
              (omega arith),
      list-restore_all gs.list new_groups o,
      restore_all-IsFresh gs.list new_groups h (record { below = tt; ordered = tt }),
    )

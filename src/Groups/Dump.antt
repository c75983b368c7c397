-- ===== src/Groups/Dump.antt =====
-- Groups::dump and Groups::restore of src/groups.cc.
pub mod RoundTrip
use topy.Prelude.{ℕ, zero, suc, ◌^◌, Text, Bool, List, [], ◌∷◌, ◌++◌, ℤ, pos, residue, length}
use topy.Decimal.{int_text}
use topy.Groups.{Group, Groups, restore_group}
use topy.Parser.{Parse, Parser, Parsed, ok, pure, ◌>>=◌, ◌>>◌, read_int, read_until, waitfor}
use topy.Parser.Restoring.{Restored, done, reads, and_then, ends}
use topy.StdMap.{StdMap}

-- One entry, in front of `rest`.
unfoldable pub dump_group : Text → Group → Text → Text
dump_group name g rest =
    b'g'
    ∷ b'{'
    ∷ b'"'
    ∷ (name
        ++ (b'"'
            ∷ b':'
            ∷ (int_text (pos g.id) ++ (b':' ∷ (int_text (pos g.mask) ++ (b'}' ∷ 10 ∷ rest))))))

unfoldable pub dump_list : StdMap Group → Text → Text
dump_list [] rest = rest
dump_list ((name, g) ∷ l) rest = dump_group name g (dump_list l rest)

unfoldable pub dump : Groups → Text → Text
unfolding dump_list
dump gs rest =
    b'G'
    ∷ b'{'
    ∷ (int_text (pos (length gs.list)) ++ (b':' ∷ 10 ∷ dump_list gs.list (b'}' ∷ 10 ∷ rest)))

module _ (failed : Text → ℤ) where
  -- One turn of the loop of restore, up to restore_group.
  unfoldable pub read_group : Parse (Text × ℕ × ℕ)
  read_group = do
    waitfor b'g'
    waitfor b'{'
    waitfor b'"'
    name ← read_until b'"'
    waitfor b'"'
    waitfor b':'
    id ← read_int failed
    waitfor b':'
    mask ← read_int failed
    pure (name, residue (2 ^ 32) id, residue (2 ^ 32) mask)

  -- The body of the loop of restore: the group stays when what follows it throws.
  unfoldable pub restore_entry : Groups → Parser → Restored Groups
  unfolding read_group
  restore_entry gs = reads gs read_group (λ (name, id, mask). ends (restore_group name id mask gs))

  unfoldable pub restore_list : ℕ → Groups → Parser → Restored Groups
  unfolding restore_entry
  restore_list zero gs p = done gs p
  restore_list (suc n) gs p = and_then (restore_list n) (restore_entry gs p)

  unfoldable pub read_count : Parse ℤ
  read_count = do
    waitfor b'G'
    waitfor b'{'
    count ← read_int failed
    waitfor b':'
    waitfor 10
    pure count

  unfoldable pub restore : Groups → Parser → Restored Groups
  unfolding restore_list read_count
  restore gs =
      reads gs read_count (λ count p. and_then ends (restore_list (residue (2 ^ 32) count) gs p))

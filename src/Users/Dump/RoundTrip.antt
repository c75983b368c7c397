-- ===== src/Users/Dump/RoundTrip.antt =====
-- User::dump and User::restore of src/user.cc, one after the other.
use topy.Prelude.{
  ℕ, zero, suc, ◌+◌, ◌^◌, ◌<◌, ◌≤◌, ◌≡◌, refl, sym, ap, subst, ◌∙◌, Text, true, false, [], ◌∷◌,
  ◌++◌, ℤ, pos, residue, ◌==◌, if◌then◌else◌, arith,
}
use topy.Decimal.{int_text, in_range}
use topy.Field.{Field}
use topy.Field.Dump as FieldDump
use topy.Field.Dump.RoundTrip as FieldTrip
use topy.Parser.{Parse, Parser, ok, pure, ◌>>=◌, ◌>>◌, read_int, read_str, waitfor, numeric}
use topy.Parser.Reading.{bind_ok, read_int-then, read_str-addslashes, fits, same, IsReadable}
use topy.StatsVector.Loops.{Cells}
use topy.StringUtils.Split.{Free}
use topy.Users.{User}
use topy.Users.Dump.{c_str, dump_fields, dump_user, restore_fields, restore_user}

-- The fields of f, read into those of g, from i on.
unfoldable pub restored_fields : Cells → ℕ → ℕ → (ℕ → Field) → (ℕ → Field) → ℕ → Field
restored_fields memory zero i g f = g
restored_fields memory (suc n) i g f =
    restored_fields memory n (i + 1)
      (λ j. if j == i then FieldTrip.restored memory (g i) (f i) else g j) f

-- The fields of f can be read into those of g.
abbrev pub AllDumped : ℕ → ℕ → (ℕ → Field) → (ℕ → Field) → Type 0
AllDumped i size g f = (j : ℕ) → i ≤ j → j < size → FieldTrip.IsDumped (g j) (f j)

AllDumped-next :
    (i size : ℕ) (x : Field) (g f : ℕ → Field)
    → AllDumped i size g f
    → AllDumped (i + 1) size (λ j. if j == i then x else g j) f
AllDumped-next i size x g f h j low high =
    let later : (j == i) ≡ false = ground (arith, low) in rw later (h j (omega (arith, low)) high)

module _ (failed : Text → ℤ) (memory : Cells) where
  restore_fields-dump_fields :
      (n i : ℕ) (g f : ℕ → Field) (rest : Text) (p : Parser)
      → AllDumped i (i + n) g f
      → restore_fields failed memory n i g (record p { text = dump_fields n i f rest })
        ≡ ok (restored_fields memory n i g f) (record p { text = rest })
  unfolding restore_fields dump_fields restored_fields waitfor
  restore_fields-dump_fields zero i g f rest p h = refl
  restore_fields-dump_fields (suc n) i g f rest p h =
      bind_ok (FieldDump.restore failed memory (g i)) _ _ _ _ (
        FieldTrip.restore-dump failed memory (g i) (f i) (dump_fields n (i + 1) f rest) p
          (h i (omega arith) (omega arith)))
      ∙ restore_fields-dump_fields n (i + 1) _ f rest p
          (AllDumped-next i (i + 1 + n) _ g f (λ j low high. h j low (omega (arith, high))))

-- The id is a C string without a backslash and without the byte 255, the group a value of `int`, and the fields can be read.
pub record IsDumped (size : ℕ) (g u : User Field) : Type 0 where
  pub id : IsReadable 92 u.id
  pub ended : Free 0 u.id
  pub group : u.group < 2 ^ 31
  pub fields : AllDumped 0 size g.field u.field

-- The user u as it is read into g.
unfoldable pub restored_user : Cells → ℕ → User Field → User Field → User Field
unfolding restored_fields
restored_user memory size g u = record g {
  id = u.id;
  group = u.group;
  field = restored_fields memory size 0 g.field u.field;
}

c_str-Free : (s : Text) → Free 0 s → c_str s ≡ s
c_str-Free [] h = refl
c_str-Free (c ∷ s) h = rw h.0 (ap (λ (t : Text). c ∷ t) (c_str-Free s h.1))

-- What stands behind the group.
dump_fields_head :
    (n i : ℕ) (f : ℕ → Field) (rest : Text)
    → (d : ℕ) × (t : Text) × (dump_fields n i f (b'}' ∷ rest) ≡ d ∷ t) × (numeric d ≡ false)
unfolding dump_fields
dump_fields_head zero i f rest = (b'}', rest, refl, refl)
dump_fields_head (suc n) i f rest =
    (b':', FieldDump.dump (f i) (dump_fields n (i + 1) f (b'}' ∷ rest)), refl, refl)

read_int-before :
    {B : Type 0}
    → (failed : Text → ℤ) (k : ℤ → Parse B) (z : ℤ) (d : ℕ) (t tail : Text) (p : Parser)
    → in_range (2 ^ 31) z ≡ true
    → numeric d ≡ false
    → tail ≡ d ∷ t
    → (read_int failed >>= k) (record p { text = int_text z ++ tail })
      ≡ k z (record p { text = tail })
read_int-before failed k z d t tail p h n e =
    subst
      (λ (s : Text).
        (read_int failed >>= k) (record p { text = int_text z ++ s }) ≡ k z (record p { text = s }))
      (sym e) (read_int-then failed k z d t p h n)

module _ (failed : Text → ℤ) (memory : Cells) (size : ℕ) (g u : User Field) (rest : Text)
    (p : Parser) (h : IsDumped size g u) where
  -- The fields, and the user that is made of them.
  restore_after_group :
      (fields_of : (ℕ → Field) → User Field)
      → (restore_fields failed memory size 0 g.field >>= λ fields.
            waitfor b'}' >> pure (fields_of fields))
          (record p { text = dump_fields size 0 u.field (b'}' ∷ 10 ∷ rest) })
        ≡ ok
            (fields_of (restored_fields memory size 0 g.field u.field))
            (record p { text = 10 ∷ rest })
  unfolding waitfor
  restore_after_group fields_of = bind_ok (restore_fields failed memory size 0 g.field) _ _ _ _ (
      restore_fields-dump_fields failed memory size 0 g.field u.field (b'}' ∷ 10 ∷ rest) p
        (subst (λ (n : ℕ). AllDumped 0 n g.field u.field) (omega arith) h.fields))

  -- A dumped user, in front of `rest`, is read back up to its newline.
  pub restore_user-dump_user :
      restore_user failed memory size g (record p { text = dump_user size u rest })
      ≡ ok (restored_user memory size g u) (record p { text = 10 ∷ rest })
  unfolding restore_user dump_user waitfor restored_user
  restore_user-dump_user =
      let head = dump_fields_head size 0 u.field (10 ∷ rest) in
      bind_ok read_str _ _ _ _ (read_str-addslashes u.id _ p h.id)
      ∙ read_int-before failed _ (pos u.group) head.0 head.1 _ p (fits u.group h.group) head.3
          head.2
      ∙ restore_after_group (λ fields. record g {
        id = c_str u.id;
        group = residue (2 ^ 32) (pos u.group);
        field = fields;
      })
      ∙ ap
          (λ (id : Text).
            ok
              (record g {
                id = id;
                group = residue (2 ^ 32) (pos u.group);
                field = restored_fields memory size 0 g.field u.field;
              })
              (record p { text = 10 ∷ rest }))
          (c_str-Free u.id h.ended)
      ∙ ap
          (λ (group : ℕ).
            ok
              (record g {
                id = u.id;
                group = group;
                field = restored_fields memory size 0 g.field u.field;
              })
              (record p { text = 10 ∷ rest }))
          (same u.group h.group)

-- ===== src/Logs/Dump.antt =====
-- dump and restore of FieldUlog and FieldLog, which differ in the first letter: u or b.
use topy.Prelude.{ℕ, ◌≤◌, ◌≡◌, refl, ◌∙◌, Text, false, ◌∷◌, ◌++◌, ℤ, ◌==◌, arith}
use topy.Logs.{LogField}
use topy.Parser.{Parse, Parser, ok, pure, ◌>>=◌, ◌>>◌, waitfor}
use topy.Parser.Reading.{bind_ok, waitfor-then}
use topy.StatsVector.{StatsVector, get_sample}
use topy.StatsVector.Dump
use topy.StatsVector.Dump.{dump_samples}
use topy.StatsVector.Dump.RoundTrip.{filled, filled_at, wrap32-cast, restore-dump_samples}
use topy.StatsVector.Dump.Whole.{IsStored}

dump_items : LogField → Text → Text
dump_items f rest =
    b'L'
    ∷ b'{'
    ∷ b'i'
    ∷ b'{'
    ∷ (dump_samples f.items
        ++ (b'}' ∷ b':' ∷ b'd' ∷ b'{' ∷ (dump_samples f.dates ++ (b'}' ∷ b'}' ∷ rest))))

unfoldable pub dump : ℕ → LogField → Text → Text
unfolding dump_items
dump letter f rest = letter ∷ dump_items f rest

module _ (failed : Text → ℤ) where
  -- The part of restore behind the first letter.
  restore_items : LogField → Parse LogField
  restore_items f = do
    waitfor b'L'
    waitfor b'{'
    waitfor b'i'
    waitfor b'{'
    items ← Dump.restore failed f.items
    waitfor b'}'
    waitfor b':'
    waitfor b'd'
    waitfor b'{'
    dates ← Dump.restore failed f.dates
    waitfor b'}'
    waitfor b'}'
    pure (record { items = items; dates = dates })

  unfoldable pub restore : ℕ → LogField → Parse LogField
  unfolding restore_items
  restore letter f = waitfor letter >> restore_items f

-- The vector w with the samples of v read into it.
unfoldable pub refilled : StatsVector → StatsVector → StatsVector
refilled w v = record w { count = v.count; samples = filled v.count 0 w.type_s v.samples w.samples }

-- The field g with the items of f.
unfoldable pub refilled_log : LogField → LogField → LogField
unfolding refilled
refilled_log g f = record { items = refilled g.items f.items; dates = refilled g.dates f.dates }

-- What a restore needs to find the items again.
pub record IsDumped (g f : LogField) : Type 0 where
  pub items : IsStored f.items
  pub items_fit : f.items.count ≤ g.items.len_s
  pub items_type : g.items.type_s ≡ f.items.type_s
  pub dates : IsStored f.dates
  pub dates_fit : f.dates.count ≤ g.dates.len_s
  pub dates_type : g.dates.type_s ≡ f.dates.type_s

get_sample-refilled :
    (w v : StatsVector) (n : ℕ)
    → IsStored v
    → w.type_s ≡ v.type_s
    → get_sample (refilled w v) n ≡ get_sample v n
unfolding refilled get_sample
get_sample-refilled w v n h e = rw e (
    ground (
      arith,
      filled_at v.count 0 v.type_s v.samples w.samples n,
      wrap32-cast v.type_s (v.samples n) (h.typed n),
    ))

-- The restored field shows the items and the dates of the dumped one.
get_sample-refilled_log :
    (g f : LogField) (n : ℕ)
    → IsDumped g f
    → (get_sample (refilled_log g f).items n ≡ get_sample f.items n)
      × (get_sample (refilled_log g f).dates n ≡ get_sample f.dates n)
unfolding refilled_log
get_sample-refilled_log g f n h = (
  get_sample-refilled g.items f.items n h.items h.items_type,
  get_sample-refilled g.dates f.dates n h.dates h.dates_type,
)

restore_items-dump_items :
    (failed : Text → ℤ) (g f : LogField) (rest : Text) (p : Parser)
    → IsDumped g f
    → restore_items failed g (record p { text = dump_items f rest })
      ≡ ok (refilled_log g f) (record p { text = rest })
unfolding restore_items dump_items waitfor refilled_log refilled
restore_items-dump_items failed g f rest p h =
    bind_ok (Dump.restore failed g.items) _ _ _ _
      (restore-dump_samples failed f.items g.items b'}' _ p h.items.counted h.items_fit refl)
    ∙ bind_ok (Dump.restore failed g.dates) _ _ _ _
        (restore-dump_samples failed f.dates g.dates b'}' _ p h.dates.counted h.dates_fit refl)

-- A dumped field, in front of `rest`, is read back into g.
pub restore-dump :
    (failed : Text → ℤ) (letter : ℕ) (g f : LogField) (rest : Text) (p : Parser)
    → (letter == 10) ≡ false
    → IsDumped g f
    → restore failed letter g (record p { text = dump letter f rest })
      ≡ ok (refilled_log g f) (record p { text = rest })
unfolding restore dump dump_items
restore-dump failed letter g f rest p plain h =
    waitfor-then letter (restore_items failed g) (dump_items f rest) p plain
    ∙ restore_items-dump_items failed g f rest p h

-- The restore of a FieldUlog or FieldLog, by its first letter, reads the text that its dump writes,
-- whatever follows it, and then shows the same items and dates; both vectors must fit those of the
-- restored field and have their types, with samples that are values of the type and at most 255 of
-- them in use.
pub restore-dump_shows :
    (failed : Text → ℤ) (letter : ℕ) (g f : LogField) (rest : Text) (p : Parser)
    → (letter == 10) ≡ false
    → IsDumped g f
    → (restore failed letter g (record p { text = dump letter f rest })
        ≡ ok (refilled_log g f) (record p { text = rest }))
      × ((n : ℕ)
          → (get_sample (refilled_log g f).items n ≡ get_sample f.items n)
            × (get_sample (refilled_log g f).dates n ≡ get_sample f.dates n))
restore-dump_shows failed letter g f rest p plain h =
    (restore-dump failed letter g f rest p plain h, λ n. get_sample-refilled_log g f n h)

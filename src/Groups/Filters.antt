-- ===== src/Groups/Filters.antt =====
-- filter_parse of src/groups.cc on names joined by '+'.
use Prim.Native.Nat.{bit_or}
use topy.Prelude.{
  ◌≡◌, refl, sym, ap, ◌∙◌, inl, inr, ◌++◌, append-nil, Option-cases, Text, false, some, List, [],
  ◌∷◌, arith, ◌==◌,
}
use topy.StdMap
use topy.StdMap.{StdMap}
use topy.StringUtils.{split}
use topy.Groups.{Group, Groups, get, filter_loop, filter_parse}

-- The group of the name is there and has a mask.
abbrev pub IsMasked : Groups → Text → Type 0
IsMasked gs name = (g : Group) × (StdMap.find name gs.list ≡ some g) × ((g.mask == 0) ≡ false)

abbrev pub AllMasked : Groups → List Text → Type 0
AllMasked gs [] = Unit {0}
AllMasked gs (name ∷ names) = IsMasked gs name × AllMasked gs names

-- The filter with the bits of the groups of the names added.
unfoldable pub unite : Groups → Group → List Text → Group
unite gs filter [] = filter
unite gs filter (name ∷ names) =
    unite gs
      (record {
        id = bit_or filter.id (get name gs).id;
        mask = bit_or filter.mask (get name gs).mask;
      })
      names

abbrev pub no_filter : Group
no_filter = record { id = 0; mask = 0 }

filter_loop-masked :
    (gs : Groups) (names rest : List Text) (filter : Group)
    → AllMasked gs names
    → filter_loop gs.list filter (names ++ rest) ≡ filter_loop gs.list (unite gs filter names) rest
unfolding filter_loop unite get
filter_loop-masked gs [] rest filter m = refl
filter_loop-masked gs (name ∷ names) rest filter m =
    let (g, found, masked) = m.0 in
    rw (found, filter_loop, masked, unite, get)
      (filter_loop-masked gs names rest
        (record { id = bit_or filter.id g.id; mask = bit_or filter.mask g.mask }) m.1)

filter_loop_stops :
    (gs : Groups) (filter : Group) (name : Text) (rest : List Text)
    → (get name gs).mask ≡ 0
    → filter_loop gs.list filter (name ∷ rest) ≡ get name gs
unfolding filter_loop get
filter_loop_stops gs filter name rest plain = elim (Option-cases (StdMap.find name gs.list)) [
  | inl e ↦ rw (e, filter_loop, get)
  | inr (g, e) ↦ rw (e, filter_loop, get) (ground (arith, e, plain))
]

filter_loop_end : (gs : Groups) (filter : Group) → filter_loop gs.list filter [] ≡ filter
unfolding filter_loop
filter_loop_end gs filter = refl

-- A filter text whose parts all name masked groups gives the union of their ids and of their masks.
pub filter_parse_masked :
    (str : Text) (gs : Groups)
    → AllMasked gs (split str b'+')
    → filter_parse str gs ≡ unite gs no_filter (split str b'+')
unfolding filter_parse
filter_parse_masked str gs masked =
    ap (filter_loop gs.list no_filter) (sym (append-nil (split str b'+')))
    ∙ filter_loop-masked gs (split str b'+') [] no_filter masked
    ∙ filter_loop_end gs (unite gs no_filter (split str b'+'))

-- A filter text whose parts up to some name are masked groups, and where that name's group has the
-- mask 0, gives that name's group alone, whatever follows: a plain group is the filter itself, and
-- an unknown name gives the unknown group.
pub filter_parse_first :
    (str name : Text) (before after : List Text) (gs : Groups)
    → split str b'+' ≡ before ++ (name ∷ after)
    → AllMasked gs before
    → (get name gs).mask ≡ 0
    → filter_parse str gs ≡ get name gs
unfolding filter_parse
filter_parse_first str name before after gs parts masked plain =
    ap (filter_loop gs.list no_filter) parts
    ∙ filter_loop-masked gs before (name ∷ after) no_filter masked
    ∙ filter_loop_stops gs (unite gs no_filter before) name after plain

-- ===== src/Tests/Sets.antt =====
-- The theorems on named sets and on contests at concrete inputs.
use topy.Prelude.{
  ℕ, ◌≡◌, ◌≢◌, ◌↔◌, Text, Bool, none, ◌⊎◌, codes, true, List, [], ◌∷◌, pos, negsuc, ltb,
  if◌then◌else◌,
}
use topy.Contest.{find, finalize}
use topy.Sets
use topy.Contest.Positions.{IsPlaced, find-finalize}
use topy.Sets.{Sets, Deletion, undefined, find_or_create, clear, del}
use topy.Sets.Ownership.{Reachable, start, after, selects, clears, places, Reachable-places}
use topy.Top.{TopItem}
use topy.Top.Items.{items_of}

abbrev nothing : Sets
nothing = record { list = []; next = 0; freed = [] }

abbrev one_set : Sets
one_set = (find_or_create (codes "night") nothing).0

abbrev cleared : Sets
cleared = clear true one_set

cleared-Reachable : Reachable cleared
cleared-Reachable =
    after one_set cleared (after nothing one_set start (selects nothing (codes "night")))
      (clears one_set)

Reachable-places_example :
    ((a : ℕ) → places a cleared ≡ (if ltb a cleared.next then 1 else 0))
    × ((name : Text) (free : Bool)
        → (del name free cleared ≡ undefined) ↔ (Sets.find name cleared ≢ none))
Reachable-places_example = Reachable-places cleared cleared-Reachable

-- Three items, two of them equal.
abbrev three_items : List TopItem
three_items =
    record { user = 5; score = pos 2 }
    ∷ record { user = 6; score = pos 9 }
    ∷ record { user = 7; score = pos 2 }
    ∷ []

find-finalize_example :
    ((find 7 (finalize three_items) ≡ negsuc 0) × (items_of 7 three_items ≡ 0))
    ⊎ ((i : ℕ) × (find 7 (finalize three_items) ≡ pos i) × IsPlaced 7 (finalize three_items) i)
find-finalize_example = find-finalize 7 three_items

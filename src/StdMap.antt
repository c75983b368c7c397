-- ===== src/StdMap.antt =====
-- std::map<std::string, V> as the program uses it: the list of its entries by increasing key.
pub mod Laws
use topy.Prelude.{
  Text, text_eq, text_lt, Bool, true, false, Option, none, some, List, [], ◌∷◌, if◌then◌else◌,
}

abbrev pub StdMap {ℓ} : Type ℓ → Type ℓ
StdMap V = List (Text × V)

module _ {ℓ} {V : Type ℓ} where
  -- find; `none` is end().
  unfoldable pub find : Text → StdMap V → Option V
  find k [] = none
  find k ((j, v) ∷ m) = if text_eq j k then some v else find k m

  -- A new entry before the first greater key.
  unfoldable pub place : Text → V → StdMap V → StdMap V
  place k v [] = (k, v) ∷ []
  place k v ((j, w) ∷ m) = if text_lt k j then (k, v) ∷ (j, w) ∷ m else (j, w) ∷ place k v m

  place_new : Text → V → StdMap V → Option V → StdMap V × Bool × V
  place_new k v m none = (place k v m, true, v)
  place_new k v m (some w) = (m, false, w)

  -- insert: the map, whether the entry is new, and the value that the map now has at the key.
  unfoldable pub insert : Text → V → StdMap V → StdMap V × Bool × V
  unfolding place_new
  insert k v m = place_new k v m (find k m)

  -- erase of what find has found
  unfoldable pub erase : Text → StdMap V → StdMap V
  erase k [] = []
  erase k ((j, v) ∷ m) = let rest = erase k m in if text_eq j k then m else (j, v) ∷ rest

  -- it->second = v at what find has found
  unfoldable pub assign : Text → V → StdMap V → StdMap V
  assign k v [] = []
  assign k v ((j, w) ∷ m) =
      let rest = assign k v m in if text_eq j k then (j, v) ∷ m else (j, w) ∷ rest

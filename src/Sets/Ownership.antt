-- ===== src/Sets/Ownership.antt =====
-- Where the sets are that the calls on UsersSets and Contests have made.
use topy.Prelude.{
  ℕ, ◌+◌, ◌≡◌, ◌≢◌, ◌↔◌, refl, sym, ap, subst, ◌∙◌, inl, inr, Text, Bool, true, ltb, Option, none,
  some, [], ◌∷◌, if◌then◌else◌, arith, Option-cases,
}
use topy.Sets.{
  Sets, Deletion, fine, undefined, find, add, or_create, find_or_create, del_found, del, clear,
  values,
}
use topy.StdMap
use topy.StdMap.{StdMap}
use topy.StdMap.Laws.{insert_new}
use topy.Users.Lists.{occurrences, occurrences-append}

-- The calls: select and generate, delete, where its outcome is defined, and clear.
pub data Step : Sets → Sets → Type 0 where
  selects : (s : Sets) (name : Text) → Step s (find_or_create name s).0
  deletes :
      (s t : Sets) (name : Text) (free : Bool) (set : Option ℕ)
      → del name free s ≡ fine t set
      → Step s t
  clears : (s : Sets) → Step s (clear true s)

pub data Reachable : Sets → Type 0 where
  start : Reachable (record { list = []; next = 0; freed = [] })
  after : (s t : Sets) → Reachable s → Step s t → Reachable t

values-place :
    (k : Text) (v : ℕ) (m : StdMap ℕ) (a : ℕ)
    → occurrences a (values (StdMap.place k v m)) ≡ occurrences a (v ∷ values m)
unfolding values StdMap.place
values-place k v [] a = refl
values-place k v ((j, w) ∷ m) a = ground (arith, values-place k v m a)

-- How often a set is listed or deleted.
abbrev pub places : ℕ → Sets → ℕ
places a s = occurrences a (values s.list) + occurrences a s.freed

abbrev made : ℕ → ℕ → ℕ
made a next = if ltb a next then 1 else 0

abbrev IsKept : Sets → Type 0
IsKept s = (a : ℕ) → places a s ≡ made a s.next

-- A call, by what the map has under the name.
find_or_create_new :
    (name : Text) (s : Sets)
    → StdMap.find name s.list ≡ none
    → find_or_create name s
      ≡ (record s { list = StdMap.place name s.next s.list; next = s.next + 1 }, some s.next)
unfolding find_or_create or_create find add
find_or_create_new name s fresh =
    ap (or_create name s) fresh
    ∙ ap
        (λ (r : StdMap ℕ × Bool × ℕ).
          (record s { list = r.0; next = s.next + 1 }, if r.1 then some r.2 else none))
        (insert_new name s.next s.list fresh)

find_or_create_old :
    (name : Text) (s : Sets) (set : ℕ)
    → StdMap.find name s.list ≡ some set
    → find_or_create name s ≡ (s, some set)
unfolding find_or_create or_create find
find_or_create_old name s set there = ap (or_create name s) there

selects-IsKept : (s : Sets) (name : Text) → IsKept s → IsKept (find_or_create name s).0
selects-IsKept s name kept a = elim (Option-cases (StdMap.find name s.list)) [
  | inr (set, there) ↦
      subst (λ (r : Sets × Option ℕ). places a r.0 ≡ made a r.0.next)
        (sym (find_or_create_old name s set there)) (kept a)
  | inl fresh ↦
      subst (λ (r : Sets × Option ℕ). places a r.0 ≡ made a r.0.next)
        (sym (find_or_create_new name s fresh))
        (ground (arith, kept a, values-place name s.next s.list a))
]

-- What del leaves of the sets, where it is defined.
abbrev sets_of : Sets → Deletion → Sets
sets_of s (fine t set) = t
sets_of s undefined = s

sets_of-del : (name : Text) (free : Bool) (s : Sets) → sets_of s (del name free s) ≡ s
unfolding del del_found
sets_of-del name free s = elim (Option-cases (StdMap.find name s.list)) [
  | inl unknown ↦ ap (λ (r : Option ℕ). sets_of s (del_found s r)) unknown
  | inr (set, there) ↦ ap (λ (r : Option ℕ). sets_of s (del_found s r)) there
]

clears-IsKept : (s : Sets) → IsKept s → IsKept (clear true s)
unfolding clear values
clears-IsKept s kept a = omega (arith, kept a, occurrences-append a (values s.list) s.freed)

Reachable-IsKept : (s : Sets) → Reachable s → IsKept s
unfolding values
Reachable-IsKept s start a = ground arith
Reachable-IsKept _ (after s _ r (selects _ name)) a = selects-IsKept s name (Reachable-IsKept s r) a
Reachable-IsKept t (after s _ r (deletes _ _ name free set done)) a =
    let same : s ≡ t = sym (sets_of-del name free s) ∙ ap (sets_of s) done in
    subst (λ (u : Sets). places a u ≡ made a u.next) same (Reachable-IsKept s r a)
Reachable-IsKept _ (after s _ r (clears _)) a = clears-IsKept s (Reachable-IsKept s r) a

del_undefined :
    (name : Text) (free : Bool) (s : Sets) → (del name free s ≡ undefined) ↔ (find name s ≢ none)
unfolding del del_found find
del_undefined name free s = elim (Option-cases (StdMap.find name s.list)) [
  | inl unknown ↦
      let answer : del_found s (StdMap.find name s.list) ≡ fine s none = ap (del_found s) unknown in
      (λ e. cc (answer, e), λ listed. absurd (listed unknown))
  | inr (set, there) ↦ (λ e none_there. cc (there, none_there), λ listed. ap (del_found s) there)
]

-- In every state that the sets get into by find_or_create, by deletions with a defined outcome, and
-- by clearings that free the sets, every set that was ever made is in exactly one place, once,
-- listed under a name or freed, and no other set is in either; and there a deletion by name has no
-- defined outcome, since it uses an iterator of an erased entry, if and only if the name is listed.
pub Reachable-places :
    (s : Sets)
    → Reachable s
    → ((a : ℕ) → places a s ≡ (if ltb a s.next then 1 else 0))
      × ((name : Text) (free : Bool) → (del name free s ≡ undefined) ↔ (find name s ≢ none))
Reachable-places s r = (Reachable-IsKept s r, λ name free. del_undefined name free s)

-- ===== src/Parser/Restoring.antt =====
-- How the methods restore of src/groups.cc, src/users.cc and src/server.cc use the parser: what they have
-- changed stays when waitfor throws.
use topy.Prelude.{◌≡◌, ap}
use topy.Parser.{Parse, Parser, Parsed, ok, threw, undefined, ◌>>◌, waitfor}

-- The state and the parser, at the end, when waitfor has thrown, or with no defined outcome.
pub data Restored (S : Type 0) : Type 0 where
  done : S → Parser → Restored S
  stopped : S → Parser → Restored S
  broken : Restored S

module _ {S A : Type 0} (s : S) (k : A → Parser → Restored S) where
  abbrev go_on : Parsed A → Restored S
  go_on (ok a q) = k a q
  go_on (threw q) = stopped s q
  go_on undefined = broken

-- Something is read in the state s.
abbrev pub reads : {S A : Type 0} → S → Parse A → (A → Parser → Restored S) → Parser → Restored S
reads s m k p = go_on s k (m p)

abbrev pub and_then : {S : Type 0} → (S → Parser → Restored S) → Restored S → Restored S
and_then f (done s p) = f s p
and_then f (stopped s p) = stopped s p
and_then f broken = broken

-- The end of a dump's entry: a brace and a newline.
abbrev pub ends : {S : Type 0} → S → Parser → Restored S
ends s = reads s (waitfor b'}' >> waitfor 10) (λ _. done s)

-- The state as a part of another.
abbrev pub inside : {S R : Type 0} → (S → R) → Restored S → Restored R
inside f (done s p) = done (f s) p
inside f (stopped s p) = stopped (f s) p
inside f broken = broken

pub reads_ok :
    {S A : Type 0} (s : S) (m : Parse A) (k : A → Parser → Restored S) (p q : Parser) (a : A)
    → m p ≡ ok a q
    → reads s m k p ≡ k a q
reads_ok s m k p q a e = ap (go_on s k) e

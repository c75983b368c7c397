-- ===== src/Expr/Ends.antt =====
-- The outcomes of ExprParser of src/expr_bool.cc that are not the end of the fuel.
use Prim.Native.Nat.{bit_or}
use topy.Prelude.{
  ℕ, ◌≤◌, ◌<◌, ◌≡◌, ◌≢◌, refl, sym, ap, inl, inr, Text, codes, text_eq, Bool, true, false, ◌&&◌,
  List, [], ◌∷◌, arith, if◌then◌else◌, length,
}
use topy.Groups
use topy.Groups.{Group, Groups}
use topy.Expr.{ExprBool}
use topy.Expr.Parser.{
  ExprParser, Outcome, done, fault, out_of_fuel, ◌>>=◌, token_of, Token, end, replace, pop_one,
  pop_two,
}
use topy.WordsParser.{next}
use topy.WordsParser.Reading.{next-length}

-- The characters that are left.
abbrev pub left : ExprParser → ℕ
left p = length p.words.buffer

-- The outcome of a parser that began with n characters: it ends, and if it succeeds it has read some.
abbrev pub Ends : ℕ → Outcome (Bool × ExprParser) → Type 0
Ends n (done (b, q)) = (left q ≤ n) × (b ≡ true → left q < n)
Ends n fault = Unit {0}
Ends n out_of_fuel = ⊥

abbrev pub EndsFilter : ℕ → Outcome (Bool × Group × ExprParser) → Type 0
EndsFilter n (done (b, f, q)) = left q ≤ n
EndsFilter n fault = Unit {0}
EndsFilter n out_of_fuel = ⊥

abbrev pub advance : ExprParser → ExprParser
advance p = record p { words = next p.words }

pub next-left :
    (p : ExprParser)
    → (left (advance p) ≤ left p)
      × (text_eq (advance p).words.current [] ≡ false → left (advance p) < left p)
next-left p =
    let l = next-length p.words in
    (
      l.0,
      λ word. elim (l.1) [
        | inl empty ↦ absurd (ground (arith, ap (λ (w : Text). text_eq w []) empty))
        | inr less ↦ less
      ],
    )

abbrev pub united : Groups → Group → ExprParser → Group
united gs f p =
    let g = Groups.get (advance p).words.current gs in
    record { id = bit_or f.id g.id; mask = bit_or f.mask g.mask }

-- The outcome of a parser that ends, whether it has read any.
abbrev pub Within : ℕ → Outcome (Bool × ExprParser) → Type 0
Within n (done (b, q)) = left q ≤ n
Within n fault = Unit {0}
Within n out_of_fuel = ⊥

pub Within-mono : (m n : ℕ) (r : Outcome (Bool × ExprParser)) → m ≤ n → Within m r → Within n r
Within-mono m n (done (b, q)) h e = omega arith
Within-mono m n fault h e = tt
Within-mono m n out_of_fuel h e = e

-- What follows an operand that was read within n characters.
abbrev pub Settles : Outcome (List ExprBool) → Type 0
Settles out_of_fuel = ⊥
Settles _ = Unit {0}

pub pop_one-Settles : (f : ExprBool → ExprBool) (st : List ExprBool) → Settles (pop_one f st)
unfolding pop_one
pop_one-Settles f [] = tt
pop_one-Settles f (x ∷ st) = tt

pub pop_two-Settles :
    (b : Bool) (f : ExprBool → ExprBool → ExprBool) (st : List ExprBool) → Settles (pop_two b f st)
unfolding pop_two
pop_two-Settles b f [] = tt
pop_two-Settles b f (x ∷ []) = tt
pop_two-Settles b f (x ∷ y ∷ st) = tt

pub replace-Ends :
    (n : ℕ) (q : ExprParser) (o : Outcome (List ExprBool))
    → left q < n
    → Settles o
    → Ends n (replace q o)
unfolding replace
replace-Ends n q (done st) h s = (omega arith, λ e. h)
replace-Ends n q fault h s = tt
replace-Ends n q out_of_fuel h s = s

pub operand-Ends :
    (m n : ℕ) (g : List ExprBool → Outcome (List ExprBool)) (r : Outcome (Bool × ExprParser))
    → ((st : List ExprBool) → Settles (g st))
    → m < n
    → Ends m r
    → Ends n (r >>= λ t. if t.0 then replace t.1 (g t.1.stack) else done t)
operand-Ends m n g (done (true, q)) s h e =
    replace-Ends n q (g q.stack) (omega (arith, e.0)) (s q.stack)
operand-Ends m n g (done (false, q)) s h e = (omega (arith, e.0), λ f. cc)
operand-Ends m n g fault s h e = tt
operand-Ends m n g out_of_fuel s h e = e

pub group-Ends :
    (m n : ℕ) (r : Outcome (Bool × ExprParser))
    → m < n
    → Within m r
    → Ends n (r >>= λ t. done (t.0 && text_eq t.1.words.current (codes ")"), t.1))
group-Ends m n (done (b, q)) h e = (omega arith, λ f. omega arith)
group-Ends m n fault h e = tt
group-Ends m n out_of_fuel h e = e

pub Ends-Within : (m n : ℕ) (r : Outcome (Bool × ExprParser)) → m < n → Within m r → Ends n r
Ends-Within m n (done (b, q)) h e = (omega arith, λ t. omega arith)
Ends-Within m n fault h e = tt
Ends-Within m n out_of_fuel h e = e

pub operator-Ends :
    (n : ℕ) (st : List ExprBool) (without operand : Outcome (Bool × ExprParser))
    → Ends n without
    → Ends n operand
    → Ends n (elim st [ [] ↦ without | _ ↦ operand ])
operator-Ends n [] without operand h k = h
operator-Ends n (x ∷ st) without operand h k = k

-- A word that was read is not empty.
pub word_read : (w : Text) (k : Token) → token_of w ≡ k → k ≢ end → text_eq w [] ≡ false
unfolding token_of
word_read [] k e h = absurd (h (sym e))
word_read (c ∷ w) k e h = refl

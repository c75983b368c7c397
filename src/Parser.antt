-- ===== src/Parser.antt =====
-- src/parser.cc: reading the text of a dump. The file is the text that is left; what a putback does at
-- its end, and the use of a null pointer by the code that restores, is the outcome `undefined`.
pub mod Reading
pub mod Restoring
use topy.Prelude.{
  ℕ, zero, suc, ◌+◌, ◌-◌, ◌^◌, ◌%◌, Text, codes, Bool, true, false, not, ◌&&◌, ◌||◌, List, [], ◌∷◌,
  ◌++◌, ℤ, pos, negsuc, ◌==◌, if◌then◌else◌,
}
use topy.Decimal.{is_digit, extract}
use topy.WordsParser.{span}

pub record Parser : Type 0 where
  pub text : Text
  pub line : ℕ
  pub error_msg : Text

-- `threw` is the exception of waitfor, with the parser as it leaves it.
pub data Parsed (A : Type 0) : Type 0 where
  ok : A → Parser → Parsed A
  threw : Parser → Parsed A
  undefined : Parsed A

abbrev pub Parse : Type 0 → Type 0
Parse A = Parser → Parsed A

infixl 5 ◌>>=◌ ◌>>◌
abbrev pub ◌>>=◌ : {A B : Type 0} → Parse A → (A → Parse B) → Parse B
◌>>=◌ m f p = elim (m p) [ ok a q ↦ f a q | threw q ↦ threw q | undefined ↦ undefined ]

abbrev pub ◌>>◌ : {B : Type 0} → Parse (Unit {0}) → Parse B → Parse B
m >> k = m >>= λ _. k

abbrev pub pure : {A : Type 0} → A → Parse A
pure a p = ok a p

-- open, on a file with this text
unfoldable pub open_text : Text → Parser → Parser
open_text text p = record p { text = text; line = 1 }

-- sputbackc of the character that a loop has stopped at.
put_back : {A : Type 0} → A → Text → Parse A
put_back a [] p = undefined
put_back a (c ∷ rest) p = ok a (record p { text = c ∷ rest })

abbrev pub numeric : ℕ → Bool
numeric c = is_digit c || c == b'-'

-- What the extraction of an integer leaves in `int i = -1` when it fails, beside an empty text.
module _ (failed : Text → ℤ) where
  abbrev pub int_or_failed : Text → ℤ
  int_or_failed [] = negsuc 0
  int_or_failed (c ∷ s) = failed (c ∷ s)

  unfoldable pub read_int : Parse ℤ
  unfolding put_back span
  read_int p =
      let (word, rest) = span numeric p.text in
      put_back (extract (2 ^ 31) int_or_failed word) rest p

-- read_until; the byte 255, as a char, is EOF.
unfoldable pub read_until : ℕ → Parse Text
unfolding put_back span
read_until c p =
    let (word, rest) = span (λ d. not (d == c) && not (d == 255)) p.text in put_back word rest p

-- The loop of read_str behind the character `previous`: the text, and what is left.
unfoldable pub str_loop : ℕ → Text → Text × Text
str_loop previous [] = (previous ∷ [], [])
str_loop previous (c ∷ s) =
    let (word, rest) = str_loop c s in
    if c == 255 || (not (previous == 92) && c == 34)
    then (previous ∷ [], s)
    else (if previous == 92 && c == 34 then word else previous ∷ word, rest)

-- What is read at the end of the text is 255, (char) EOF.
unfoldable pub read_str : Parse Text
unfolding str_loop
read_str p = elim (p.text) [
  | [] ↦ ok [] p
  | q ∷ s ↦ if not (q == 34) then ok [] (record p { text = s }) else elim s [
    | [] ↦ ok (255 ∷ []) (record p { text = [] })
    | previous ∷ t ↦
        if previous == 34
        then ok [] (record p { text = t })
        else (let (word, rest) = str_loop previous t in ok word (record p { text = rest }))
  ]
]

-- char_name
pub char_name : ℕ → Text
char_name c = if c == 10 then 92 ∷ b'n' ∷ [] else c ∷ []

pub unexpected : ℕ → ℕ → Text
unfolding char_name
unexpected next c =
    codes "unexpected "
    ++ (34 ∷ (char_name next ++ (34 ∷ (codes " expected " ++ (34 ∷ (char_name c ++ (34 ∷ [])))))))

unfoldable pub waitfor : ℕ → Parse (Unit {0})
unfolding unexpected
waitfor c p = elim (p.text) [
  | [] ↦ threw (record p { error_msg = unexpected 255 c })
  | next ∷ rest ↦
      let q = record p { text = rest; line = if next == 10 then p.line + 1 else p.line } in
      if next == c then ok tt q else threw (record q { error_msg = unexpected next c })
]

unfoldable pub test_next : ℕ → Parse Bool
test_next c p = elim (p.text) [
  | [] ↦ undefined
  | next ∷ rest ↦ if next == c then ok true (record p { text = rest }) else ok false p
]

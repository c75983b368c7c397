-- ===== src/WordsParser.antt =====
-- src/words_parser.cc: the words of a command. Characters are bytes; the classes of those above 127,
-- which the source looks up before its table, are the parameter `outside`.
pub mod Reading
use topy.Prelude.{
  ℕ, zero, suc, Text, codes, text_eq, Bool, true, false, not, ◌||◌, List, [], ◌∷◌, ◌++◌, ltb, ◌==◌,
  if◌then◌else◌,
}

abbrev pub classe_space : ℕ
classe_space = 0

abbrev pub classe_separator : ℕ
classe_separator = 1

pub record WordsParser : Type 0 where
  pub char_classe : ℕ → ℕ
  pub buffer : Text
  pub current : Text

abbrev contains : Text → ℕ → Bool
contains [] c = false
contains (d ∷ chars) c = d == c || contains chars c

abbrev pub set_char_classe : Text → ℕ → (ℕ → ℕ) → ℕ → ℕ
set_char_classe chars value table c = if contains chars c then value else table c

-- The table of the constructor.
abbrev pub default_classes : (ℕ → ℕ) → ℕ → ℕ
default_classes outside = set_char_classe (codes "&") 3 (
    set_char_classe (codes "=<>|") 2 (
      set_char_classe (codes ",()[]{};!*#" ++ 34 ∷ 47 ∷ []) classe_separator (
        set_char_classe (32 ∷ 10 ∷ 13 ∷ 9 ∷ []) classe_space
          (λ c. if ltb c 128 then 255 else outside c))))

unfoldable pub new_parser : (ℕ → ℕ) → Text → WordsParser
new_parser outside text = record {
  char_classe = default_classes outside;
  buffer = text;
  current = codes "<undefined>";
}

-- The characters up to the first that fails the test, and the rest; the source ungets that one.
unfoldable pub span : (ℕ → Bool) → Text → Text × Text
span p [] = ([], [])
span p (c ∷ s) = let r = span p s in if p c then (c ∷ r.0, r.1) else ([], c ∷ s)

unfoldable pub skip_space : (ℕ → ℕ) → Text → Text
skip_space table [] = []
skip_space table (c ∷ s) =
    let r = skip_space table s in if table c == classe_space then r else c ∷ s

-- The word that begins at a character that is no space, and the rest.
unfoldable pub word_from : (ℕ → ℕ) → Bool → Text → Text × Text
unfolding span
word_from table allchars [] = ([], [])
word_from table allchars (c ∷ s) =
    if allchars
    then span (λ d. not (table d == classe_space)) (c ∷ s)
    else if table c == classe_separator
    then (c ∷ [], s)
    else span (λ d. table d == table c) (c ∷ s)

-- next and get_next: the new current word is the result.
unfoldable pub next_with : Bool → WordsParser → WordsParser
unfolding word_from skip_space
next_with allchars p =
    let (word, rest) = word_from p.char_classe allchars (skip_space p.char_classe p.buffer) in
    record p { buffer = rest; current = word }

abbrev pub next : WordsParser → WordsParser
next p = next_with false p

unfoldable pub waiting_for : Text → WordsParser → WordsParser × Bool
waiting_for str p = let q = next p in (q, text_eq q.current str)

until_loop : ℕ → Text → Text × Text
until_loop last [] = ([], [])
until_loop last (c ∷ s) = let r = until_loop last s in if c == last then ([], s) else (c ∷ r.0, r.1)

-- The end of the text ends the word too.
unfoldable pub until : ℕ → WordsParser → WordsParser
unfolding until_loop
until last p =
    let (word, rest) = until_loop last p.buffer in record p { buffer = rest; current = word }

pub until_end : WordsParser → WordsParser
until_end p = record p { buffer = []; current = p.buffer }

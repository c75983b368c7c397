-- ===== src/StringUtils.antt =====
-- src/stringutils.cc: splitting, trimming and escaping of strings.
pub mod Split
pub mod Slashes
use topy.Prelude.{
  ℕ, zero, suc, ◌+◌, ◌-◌, ◌*◌, Text, Bool, true, false, ◌&&◌, ◌||◌, List, [], ◌∷◌, ◌++◌, ltb, leb,
  ◌==◌, if◌then◌else◌, length, take, Option, none, some, get_elem?,
}

-- The loop of split; `buf` is what has been read of the current part.
split_loop : ℕ → Text → Text → List Text
split_loop separator buf [] = buf ∷ []
split_loop separator buf (c ∷ s) = elim (c == separator) [
  | true ↦ buf ∷ split_loop separator [] s
  | false ↦ split_loop separator (buf ++ c ∷ []) s
]

unfoldable pub split : Text → ℕ → List Text
unfolding split_loop
split str separator = split_loop separator [] str

-- while (i > 0 and is_end(str[i - 1])) i--;
trim_loop : (ℕ → Bool) → Text → ℕ → ℕ
trim_loop is_end str zero = 0
trim_loop is_end str (suc i) = elim (get_elem? str i) [
  | none ↦ suc i
  | some c ↦ elim (is_end c) [ true ↦ trim_loop is_end str i | false ↦ suc i ]
]

abbrev is_newline : ℕ → Bool
is_newline c = c == 10 || c == 13

abbrev is_blank : ℕ → Bool
is_blank c = c == 10 || c == 13 || c == b' '

pub chomp : Text → Text
unfolding trim_loop
chomp str = take (trim_loop is_newline str (length str)) str

pub rtrim : Text → Text
unfolding trim_loop
rtrim str = take (trim_loop is_blank str (length str)) str

-- toupper and tolower of the C locale
abbrev toupper : ℕ → ℕ
toupper c = if leb b'a' c && leb c b'z' then c - 32 else c

abbrev tolower : ℕ → ℕ
tolower c = if leb b'A' c && leb c b'Z' then c + 32 else c

pub upper : Text → Text
upper [] = []
upper (c ∷ s) = toupper c ∷ upper s

pub lower : Text → Text
lower [] = []
lower (c ∷ s) = tolower c ∷ lower s

unfoldable pub addslashes : Text → Text
addslashes [] = []
addslashes (c ∷ s) = if c == 34 then 92 ∷ 34 ∷ addslashes s else c ∷ addslashes s

-- The loop stops before the last character, which is then copied. On an empty string size - 1 is the
-- largest size_t, and the loop reads beyond the string: `none`.
strip_loop : Text → Text
strip_loop [] = []
strip_loop (c ∷ []) = c ∷ []
strip_loop (c ∷ d ∷ s) =
    let rest = strip_loop s in
    let next = strip_loop (d ∷ s) in if c == 92 && d == 34 then 34 ∷ rest else c ∷ next

pub stripslashes : Text → Option Text
unfolding strip_loop
stripslashes [] = none
stripslashes (c ∷ s) = some (strip_loop (c ∷ s))

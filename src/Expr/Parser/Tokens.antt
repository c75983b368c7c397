-- ===== src/Expr/Parser/Tokens.antt =====
-- What the parser makes of the words with a prefix or a suffix mark.
use topy.Prelude.{ℕ, Text, ◌≡◌, refl, ap, ◌∙◌, true, false, [], ◌∷◌, ◌++◌, arith, ◌==◌}
use topy.Expr.Parser.{last_is, without_last, token_of, affix_token, prefix_word, suffix_word}

pub token_prefix : (c : ℕ) (s : Text) → token_of (94 ∷ c ∷ s) ≡ prefix_word (c ∷ s)
unfolding token_of affix_token
token_prefix c s = ground arith

last_is_end : (c d : ℕ) (s : Text) → last_is d (c ∷ (s ++ (d ∷ []))) ≡ true
unfolding last_is
last_is_end c d [] = ground arith
last_is_end c d (e ∷ s) = last_is_end e d s

without_last_end : (c d : ℕ) (s : Text) → without_last (c ∷ (s ++ (d ∷ []))) ≡ c ∷ s
unfolding without_last
without_last_end c d [] = refl
without_last_end c d (e ∷ s) = ap (λ (t : Text). c ∷ t) (without_last_end e d s)

affix_token_suffix :
    (c d : ℕ) (s : Text)
    → (c == 94) ≡ false
    → last_is 36 (c ∷ d ∷ s) ≡ true
    → affix_token (c ∷ d ∷ s) ≡ suffix_word (without_last (c ∷ d ∷ s))
unfolding affix_token
affix_token_suffix c d s plain marked = ground (arith, plain, marked)

token_long : (c d : ℕ) (s : Text) → token_of (c ∷ d ∷ s) ≡ affix_token (c ∷ d ∷ s)
unfolding token_of
token_long c d s = ground arith

pub token_suffix :
    (c : ℕ) (s : Text) → (c == 94) ≡ false → token_of (c ∷ (s ++ (36 ∷ []))) ≡ suffix_word (c ∷ s)
token_suffix c [] plain =
    token_long c 36 []
    ∙ affix_token_suffix c 36 [] plain (last_is_end c 36 [])
    ∙ ap suffix_word (without_last_end c 36 [])
token_suffix c (d ∷ s) plain =
    token_long c d (s ++ (36 ∷ []))
    ∙ affix_token_suffix c d (s ++ (36 ∷ [])) plain (last_is_end c 36 (d ∷ s))
    ∙ ap suffix_word (without_last_end c 36 (d ∷ s))

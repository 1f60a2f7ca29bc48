-- ===== src/Script/Words/Tests.antt =====
-- Statements cut into words.
use fast_firebird.Base.{◌≡◌, refl, [], ◌∷◌, codes}
use fast_firebird.Script.Scanner.{find_pair}
use fast_firebird.Script.Words.{
  is_space, is_word, starts_word, in_word, run_of, after_run, trim_end, trim, drop_semicolons,
  tokens_from, tokens_of, words_from, words_of, comments_to_spaces,
}

tokens_lem :
    tokens_of (codes "set lock_2 10;'x")
    ≡ codes "set" ∷ codes "lock_2" ∷ codes "10" ∷ codes ";" ∷ codes "'" ∷ codes "x" ∷ []
unfolding tokens_of tokens_from is_space starts_word in_word is_word run_of after_run
tokens_lem = refl

words_lem : words_of (codes "1st 'a' b$") ≡ codes "st" ∷ codes "a" ∷ codes "b$" ∷ []
unfolding words_of words_from starts_word in_word is_word run_of after_run
words_lem = refl

semicolons_lem : drop_semicolons (codes "commit ;; ") ≡ codes "commit "
unfolding drop_semicolons after_run is_space
semicolons_lem = refl

-- Only the last run of semicolons goes.
semicolons_cut : drop_semicolons (codes "a; ;") ≡ codes "a; "
unfolding drop_semicolons after_run is_space
semicolons_cut = refl

trim_lem : trim (codes "  a b ") ≡ codes "a b"
unfolding trim trim_end after_run is_space
trim_lem = refl

comments_lem : comments_to_spaces 20 (codes "a/* b */c /*d") ≡ codes "a c  "
unfolding comments_to_spaces after_run find_pair
comments_lem = refl

-- ===== src/Script/Words.antt =====
-- packages/core/src/script/parser.ts: the regular expressions that cut a statement into words.
-- A text is its UTF-16 code units. `toLowerCase` maps the ASCII letters here; what it does to other
-- characters is the parameter `lower_wide`, one unit at a time.
mod Tests
use mathlib.Core.List.{reverse}
use fast_firebird.Base.{
  ℕ, zero, suc, ◌+◌, ◌-◌, Bool, true, false, not, ◌&&◌, ◌||◌, Option, none, some, List, [], ◌∷◌,
  ◌++◌, ◌==◌, leb, ltb, if◌then◌else◌, length, take, drop, codes,
}
use Prim.Native.String.{String}
use fast_firebird.Base.Keys.{same_list}
use fast_firebird.Script.Scanner.{is_at, find_pair}

-- `\s`: the white space and the line ends of ECMAScript.
unfoldable pub is_space : ℕ → Bool
is_space c =
    leb 9 c && leb c 13
    || c == 32
    || c == 160
    || c == 5760
    || leb 8192 c && leb c 8202
    || c == 8232
    || c == 8233
    || c == 8239
    || c == 8287
    || c == 12288
    || c == 65279

abbrev pub is_digit : ℕ → Bool
is_digit c = leb 48 c && leb c 57

abbrev pub is_upper : ℕ → Bool
is_upper c = leb 65 c && leb c 90

abbrev pub is_lower : ℕ → Bool
is_lower c = leb 97 c && leb c 122

-- `\w`
unfoldable pub is_word : ℕ → Bool
is_word c = is_digit c || is_upper c || is_lower c || c == 95

-- `[a-z$_]`, behind which `[\w$]*` follows.
unfoldable pub starts_word : ℕ → Bool
starts_word c = is_lower c || c == 36 || c == 95

unfoldable pub in_word : ℕ → Bool
in_word c = is_word c || c == 36

-- The longest run of characters that pass the test, and what is behind it.
unfoldable pub run_of : (ℕ → Bool) → List ℕ → List ℕ
run_of p [] = []
run_of p (c ∷ s) = if p c then c ∷ run_of p s else []

unfoldable pub after_run : (ℕ → Bool) → List ℕ → List ℕ
after_run p [] = []
after_run p (c ∷ s) = if p c then after_run p s else c ∷ s

unfoldable pub trim_end : List ℕ → List ℕ
trim_end s = reverse (after_run is_space (reverse s))

unfoldable pub trim : List ℕ → List ℕ
trim s = trim_end (after_run is_space s)

-- `.replace(/;+\s*$/, '')`
unfoldable pub drop_semicolons : List ℕ → List ℕ
drop_semicolons s =
    let back = after_run is_space (reverse s) in
    if is_at 0 back b';' then reverse (after_run (λ c. c == b';') back) else s

module _ (lower_wide : ℕ → List ℕ) where
  unfoldable pub to_lower_case : List ℕ → List ℕ
  to_lower_case [] = []
  to_lower_case (c ∷ s) =
      (if is_upper c then (c + 32) ∷ [] else if ltb c 128 then c ∷ [] else lower_wide c)
      ++ to_lower_case s

-- `.match(/[a-z$_][\w$]*|\d+|\S/g) ?? []`; each round takes a character, so the length is fuel enough.
unfoldable pub tokens_from : ℕ → List ℕ → List (List ℕ)
tokens_from zero s = []
tokens_from (suc fuel) [] = []
tokens_from (suc fuel) (c ∷ s) = elim (is_space c) [
  | true ↦ tokens_from fuel s
  | false ↦ elim (starts_word c) [
    | true ↦ (c ∷ run_of in_word s) ∷ tokens_from fuel (after_run in_word s)
    | false ↦ elim (is_digit c) [
      | true ↦ (c ∷ run_of is_digit s) ∷ tokens_from fuel (after_run is_digit s)
      | false ↦ (c ∷ []) ∷ tokens_from fuel s
    ]
  ]
]

unfoldable pub tokens_of : List ℕ → List (List ℕ)
tokens_of s = tokens_from (length s) s

-- `.match(/[a-z$_][\w$]*/g) ?? []`
unfoldable pub words_from : ℕ → List ℕ → List (List ℕ)
words_from zero s = []
words_from (suc fuel) [] = []
words_from (suc fuel) (c ∷ s) = elim (starts_word c) [
  | true ↦ (c ∷ run_of in_word s) ∷ words_from fuel (after_run in_word s)
  | false ↦ words_from fuel s
]

unfoldable pub words_of : List ℕ → List (List ℕ)
words_of s = words_from (length s) s

-- `[\s\S]*?(\*\/|$)` behind the opener of a block comment.
abbrev pub after_comment : List ℕ → List ℕ
after_comment s = elim (find_pair b'*' b'/' 0 s) [ none ↦ [] | some k ↦ drop (k + 2) s ]

-- `.replace(/--[^\n]*|\/\*[\s\S]*?(\*\/|$)/g, ' ')`
unfoldable pub comments_to_spaces : ℕ → List ℕ → List ℕ
comments_to_spaces zero s = s
comments_to_spaces (suc fuel) [] = []
comments_to_spaces (suc fuel) (c ∷ s) = elim (c == b'-' && is_at 0 s b'-') [
  | true ↦ 32 ∷ comments_to_spaces fuel (after_run (λ d. not (d == 10)) (drop 1 s))
  | false ↦ elim (c == b'/' && is_at 0 s b'*') [
    | true ↦ 32 ∷ comments_to_spaces fuel (after_comment (drop 1 s))
    | false ↦ c ∷ comments_to_spaces fuel s
  ]
]

-- `word === "…"`
abbrev pub is : List ℕ → String → Bool
is word s = same_list word (codes s)

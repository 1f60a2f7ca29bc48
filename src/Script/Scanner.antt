-- ===== src/Script/Scanner.antt =====
-- packages/core/src/script/scanner.ts: regions of SQL text that hold no statement syntax.
-- `text[j]` behind the end is `undefined`, which equals no character. A loop over j runs along the
-- text from j on, and carries j.
pub mod Bounds
use fast_firebird.Base.{
  ℕ, suc, ◌+◌, Bool, true, false, ◌&&◌, ◌||◌, Option, none, some, List, [], ◌∷◌, ◌==◌,
  if◌then◌else◌, length, drop, get_elem?,
}

pub data RegionType : Type 0 where
  line_comment block_comment string_ quoted_identifier q_literal : RegionType

pub record Region : Type 0 where
  pub kind : RegionType
  pub start : ℕ
  pub stop : ℕ
  pub terminated : Bool

-- `text[j] === c` for the j-th character of the text from here on.
abbrev pub is_at : ℕ → List ℕ → ℕ → Bool
is_at j text c = elim (get_elem? text j) [ none ↦ false | some d ↦ d == c ]

abbrev pub is_eol : ℕ → Bool
is_eol c = c == 10 || c == 13

-- `while (j < n && text[j] !== '\n' && text[j] !== '\r') j++;`
unfoldable pub line_end : ℕ → List ℕ → ℕ
line_end j [] = j
line_end j (c ∷ rest) = if is_eol c then j else line_end (suc j) rest

-- `while (j < n && !(text[j] === a && text[j + 1] === b)) j++;`, and whether it ended before n.
unfoldable pub find_pair : ℕ → ℕ → ℕ → List ℕ → Option ℕ
find_pair a b j [] = none
find_pair a b j (c ∷ rest) = if c == a && is_at 0 rest b then some j else find_pair a b (suc j) rest

-- The loop over a quoted text: a doubled quote is skipped, a single one ends it.
unfoldable pub find_quote : ℕ → ℕ → List ℕ → Option ℕ
find_quote q j [] = none
find_quote q j (c ∷ []) = if c == q then some (suc j) else none
find_quote q j (c ∷ d ∷ rest) = elim (c == q) [
  | true ↦ elim (d == q) [ true ↦ find_quote q (suc (suc j)) rest | false ↦ some (suc j) ]
  | false ↦ find_quote q (suc j) (d ∷ rest)
]

abbrev pub q_closer : ℕ → ℕ
q_closer opener =
    if opener == b'{'
    then b'}'
    else if opener == b'['
    then b']'
    else if opener == b'('
    then b')'
    else if opener == b'<'
    then b'>'
    else opener

-- A region from i to past its closing delimiter, or to the end of the text.
unfoldable pub closed : RegionType → ℕ → ℕ → ℕ → Option ℕ → Region
closed kind i n past (some j) = record {
  kind = kind;
  start = i;
  stop = j + past;
  terminated = true;
}
closed kind i n past none = record { kind = kind; start = i; stop = n; terminated = false }

abbrev pub quote_kind : ℕ → RegionType
quote_kind c = if c == 39 then string_ else quoted_identifier

-- The q-literal whose text from its opener on is given.
unfoldable pub q_region : ℕ → ℕ → List ℕ → Region
q_region i n [] = record { kind = q_literal; start = i; stop = n; terminated = false }
q_region i n (opener ∷ rest) = closed q_literal i n 2 (find_pair (q_closer opener) 39 (i + 3) rest)

-- The region that starts at i, where `text` is what follows from i on, and n the whole length.
unfoldable pub region_from : ℕ → ℕ → List ℕ → Option Region
region_from i n [] = none
region_from i n (c ∷ rest) =
    if c == b'-' && is_at 0 rest b'-'
    then some (record {
      kind = line_comment;
      start = i;
      stop = line_end (i + 2) (drop 1 rest);
      terminated = true;
    })
    else if c == b'/' && is_at 0 rest b'*'
    then some (closed block_comment i n 2 (find_pair b'*' b'/' (i + 2) (drop 1 rest)))
    else if (c == b'q' || c == b'Q') && is_at 0 rest 39
    then some (q_region i n (drop 1 rest))
    else if c == 39 || c == 34
    then some (closed (quote_kind c) i n 0 (find_quote c (i + 1) rest))
    else none

unfoldable pub region_at : List ℕ → ℕ → Option Region
region_at text i = region_from i (length text) (drop i text)

-- ===== src/Script/Comments.antt =====
-- packages/core/src/script/parser.ts: `lineColAt`, `commentRanges` and `stripComments`.
pub mod Ranges
pub mod Blanking
mod Tests
use fast_firebird.Base.{
  ℕ, zero, suc, ◌+◌, ◌-◌, Bool, true, false, Option, none, some, List, [], ◌∷◌, ◌++◌, map, ◌==◌,
  ltb, if◌then◌else◌, length, drop, slice,
}
use fast_firebird.Script.Scanner.{
  RegionType, line_comment, block_comment, string_, quoted_identifier, q_literal, Region, region_at,
  is_eol,
}

-- The line and the column of an error, and the kind of region that was not closed, which decides
-- the message (`UNTERMINATED_MESSAGE`).
pub data Parsed {ℓ} (A : Type ℓ) : Type ℓ where
  ok : A → Parsed A
  unterminated : RegionType → ℕ → ℕ → Parsed A
  set_term_without_terminator : ℕ → ℕ → Parsed A
  set_term_without_new : ℕ → ℕ → Parsed A
  stuck : Parsed A

infixl 5 ◌>>=◌
abbrev pub ◌>>=◌ {ℓ κ} : {A : Type ℓ} {B : Type κ} → Parsed A → (A → Parsed B) → Parsed B
ok a >>= f = f a
unterminated k l c >>= f = unterminated k l c
set_term_without_terminator l c >>= f = set_term_without_terminator l c
set_term_without_new l c >>= f = set_term_without_new l c
stuck >>= f = stuck

-- One character moves the position: the loop body of `lineColAt` and of `advance`.
abbrev pub moved : ℕ → ℕ × ℕ → ℕ × ℕ
moved c (line, column) = if c == 10 then (line + 1, 1) else (line, column + 1)

unfoldable pub line_col : ℕ × ℕ → List ℕ → ℕ → ℕ × ℕ
line_col at text zero = at
line_col at [] (suc k) = line_col (at.0, at.1 + 1) [] k
line_col at (c ∷ text) (suc k) = line_col (moved c at) text k

unfoldable pub line_col_at : List ℕ → ℕ → ℕ × ℕ
line_col_at text index = line_col (1, 1) text index

abbrev pub is_comment : RegionType → Bool
is_comment line_comment = true
is_comment block_comment = true
is_comment string_ = false
is_comment quoted_identifier = false
is_comment q_literal = false

-- The loop of `commentRanges` from i on; each round moves i forward, so the length is fuel enough.
unfoldable pub ranges_from : ℕ → List ℕ → ℕ → Parsed (List (ℕ × ℕ))
ranges_from zero sql i = if ltb i (length sql) then stuck else ok []
ranges_from (suc fuel) sql i = elim (ltb i (length sql)) [
  | false ↦ ok []
  | true ↦ elim (region_at sql i) [
    | none ↦ ranges_from fuel sql (i + 1)
    | some r ↦ elim r.terminated [
      | false ↦ unterminated r.kind (line_col_at sql r.start).0 (line_col_at sql r.start).1
      | true ↦ ranges_from fuel sql r.stop >>= λ rest.
          ok (if is_comment r.kind then (r.start, r.stop) ∷ rest else rest)
    ]
  ]
]

unfoldable pub comment_ranges : List ℕ → Parsed (List (ℕ × ℕ))
comment_ranges sql = ranges_from (length sql) sql 0

-- `.replace(/[^\n\r]/g, ' ')`
abbrev pub blank : ℕ → ℕ
blank c = if is_eol c then c else 32

unfoldable pub blanked : ℕ → List (ℕ × ℕ) → List ℕ → List ℕ
blanked prev [] sql = drop prev sql
blanked prev ((s, e) ∷ ranges) sql =
    slice prev s sql ++ (map blank (slice s e sql) ++ blanked e ranges sql)

unfoldable pub strip_comments : List ℕ → Parsed (List ℕ)
strip_comments sql = comment_ranges sql >>= λ ranges. ok (blanked 0 ranges sql)

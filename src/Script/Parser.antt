-- ===== src/Script/Parser.antt =====
-- packages/core/src/script/parser.ts: `parseScript`, with the terminator that SET TERM changes.
-- i, line and col are one `Cursor`. Each round of a loop moves i forward, so the length of the
-- script is fuel enough for each; Parser.Termination shows it.
pub mod Cursors
pub mod Rounds
pub mod Positions
mod Tests
use fast_firebird.Base.{
  ℕ, zero, suc, ◌+◌, ◌-◌, Bool, true, false, not, ◌&&◌, ◌||◌, Option, none, some, List, [], ◌∷◌,
  ◌==◌, ltb, if◌then◌else◌, length, drop, take, slice,
}
use fast_firebird.Script.Scanner.{Region, region_at}
use fast_firebird.Script.Comments.{
  Parsed, ok, unterminated, set_term_without_terminator, set_term_without_new, stuck, ◌>>=◌,
  is_comment, line_col,
}
use fast_firebird.Script.Words.{is_space, is_word, run_of, after_run, trim}
use fast_firebird.Script.Commands.{
  ClientCommand, StatementKind, client, classify_client_command, classify_server_statement,
}

pub record Cursor : Type 0 where
  pub index : ℕ
  pub place : ℕ × ℕ  -- line and col

pub record ParsedStatement : Type 0 where
  pub sql : List ℕ
  pub place : ℕ × ℕ
  pub kind : StatementKind
  pub command : Option ClientCommand

unfoldable pub starts_with : List ℕ → List ℕ → Bool
starts_with [] text = true
starts_with (c ∷ s) [] = false
starts_with (c ∷ s) (d ∷ text) = c == d && starts_with s text

-- `script.startsWith(terminator, at)`
unfoldable pub starts_at : List ℕ → ℕ → List ℕ → Bool
starts_at s i script = starts_with s (drop i script)

unfoldable pub advance : List ℕ → ℕ → Cursor → Cursor
advance script count at = record {
  index = at.index + count;
  place = line_col at.place (drop at.index script) count;
}

unfoldable pub matches_terminator : List ℕ → ℕ → List ℕ → Bool
unfolding starts_at
matches_terminator terminator i script =
    if length terminator == 0 then false else starts_at terminator i script

-- The characters of a lower-case word in either case: `/…/i`.
unfoldable pub starts_folded : List ℕ → List ℕ → Bool
starts_folded [] text = true
starts_folded (c ∷ s) [] = false
starts_folded (c ∷ s) (d ∷ text) = (d == c || d + 32 == c) && starts_folded s text

-- `\b` behind a word character.
abbrev pub at_boundary : List ℕ → Bool
at_boundary [] = true
at_boundary (c ∷ s) = not (is_word c)

abbrev set_word : List ℕ
set_word = 115 ∷ 101 ∷ 116 ∷ []

abbrev term_word : List ℕ
term_word = 116 ∷ 101 ∷ 114 ∷ 109 ∷ []

-- What is behind a match of `/^set\s+term\b/i`.
unfoldable pub after_set_term : List ℕ → Option (List ℕ)
after_set_term text =
    let blanks = run_of is_space (drop 3 text) in
    let behind = after_run is_space (drop 3 text) in
    if starts_folded set_word text
      && not (length blanks == 0)
      && starts_folded term_word behind
      && at_boundary (drop 4 behind)
    then some (drop 4 behind)
    else none

abbrev pub is_some {ℓ} : {A : Type ℓ} → Option A → Bool
is_some none = false
is_some (some a) = true

-- `command.replace(SET_TERM_RE, '')`
abbrev pub without_set_term : List ℕ → List ℕ
without_set_term text = elim (after_set_term text) [ none ↦ text | some rest ↦ rest ]

-- `while (j < n && !script.startsWith(terminator, j)) j++;`, where `text` is the script from j on:
-- the j it ends at, or none if that is n.
unfoldable pub find_terminator : List ℕ → ℕ → List ℕ → Option ℕ
find_terminator terminator j [] = none
find_terminator terminator j (c ∷ rest) =
    if starts_with terminator (c ∷ rest) then some j else find_terminator terminator (suc j) rest

module _ (lower_wide : ℕ → List ℕ) (script : List ℕ) where
  unfoldable pub skip_trivia : ℕ → Cursor → Parsed Cursor
  unfolding advance
  skip_trivia zero at = if ltb at.index (length script) then stuck else ok at
  skip_trivia (suc fuel) at = elim (drop at.index script) [
    | [] ↦ ok at
    | c ∷ _ ↦ elim (is_space c) [
      | true ↦ skip_trivia fuel (advance script 1 at)
      | false ↦ elim (region_at script at.index) [
        | none ↦ ok at
        | some r ↦ elim (is_comment r.kind) [
          | false ↦ ok at
          | true ↦ elim r.terminated [
            | false ↦ unterminated r.kind at.place.0 at.place.1
            | true ↦ skip_trivia fuel (advance script (r.stop - at.index) at)
          ]
        ]
      ]
    ]
  ]

  -- The new terminator, and the cursor behind the command.
  unfoldable pub consume_set_term : List ℕ → Cursor → Parsed (List ℕ × Cursor)
  unfolding advance
  consume_set_term terminator at =
      elim (find_terminator terminator at.index (drop at.index script)) [
        | none ↦ set_term_without_terminator at.place.0 at.place.1
        | some j ↦ elim (trim (without_set_term (slice at.index j script))) [
          | [] ↦ set_term_without_new at.place.0 at.place.1
          | c ∷ s ↦ ok (c ∷ s, advance script (j - at.index + length terminator) at)
        ]
      ]

  -- The body of a statement up to its terminator or the end: where it ends, `sawContent` and
  -- `terminated`.
  unfoldable pub scan_body : ℕ → List ℕ → Bool → Cursor → Parsed (Cursor × Bool × Bool)
  unfolding advance matches_terminator
  scan_body zero terminator saw at =
      if ltb at.index (length script) then stuck else ok (at, saw, false)
  scan_body (suc fuel) terminator saw at = elim (drop at.index script) [
    | [] ↦ ok (at, saw, false)
    | c ∷ _ ↦ elim (region_at script at.index) [
      | some r ↦ elim r.terminated [
        | false ↦ unterminated r.kind at.place.0 at.place.1
        | true ↦
            scan_body fuel terminator (saw || not (is_comment r.kind))
              (advance script (r.stop - at.index) at)
      ]
      | none ↦ elim (matches_terminator terminator at.index script) [
        | true ↦ ok (advance script (length terminator) at, saw, true)
        | false ↦ scan_body fuel terminator (saw || not (is_space c)) (advance script 1 at)
      ]
    ]
  ]

  unfoldable pub statement_of : List ℕ → ℕ × ℕ → ParsedStatement
  statement_of sql place =
      let command = classify_client_command lower_wide sql in
      record {
        sql = sql;
        place = place;
        kind = elim command [ some c ↦ client | none ↦ classify_server_statement lower_wide sql ];
        command = command;
      }

  -- `if (sawContent) { … statements.push(…) }`, in front of the statements that follow.
  unfoldable pub emit :
      List ℕ → Cursor → Cursor × Bool × Bool → List ParsedStatement → List ParsedStatement
  unfolding statement_of
  emit terminator start (stop, saw, terminated) statements =
      let raw_end = if terminated then stop.index - length terminator else stop.index in
      let sql = trim (slice start.index raw_end script) in
      if saw && not (length sql == 0) then statement_of sql start.place ∷ statements else statements

  -- A round of the outer loop from a statement's start; `later` are the rounds behind it.
  unfoldable pub round :
      (List ℕ → Cursor → Parsed (List ParsedStatement))
      → List ℕ
      → Cursor
      → Parsed (List ParsedStatement)
  unfolding consume_set_term scan_body emit
  round later terminator start = elim (drop start.index script) [
    | [] ↦ ok []
    | _ ∷ _ ↦ elim (after_set_term (slice start.index (start.index + 12) script)) [
      | some _ ↦ consume_set_term terminator start >>= λ next. later next.0 next.1
      | none ↦ scan_body (length script) terminator false start >>= λ body.
          later terminator body.0 >>= λ rest. ok (emit terminator start body rest)
    ]
  ]

  unfoldable pub statements_from : ℕ → List ℕ → Cursor → Parsed (List ParsedStatement)
  unfolding skip_trivia round
  statements_from zero terminator at = if ltb at.index (length script) then stuck else ok []
  statements_from (suc fuel) terminator at =
      skip_trivia (length script) at >>= round (statements_from fuel) terminator

  unfoldable pub parse_script : List ℕ → Parsed (List ParsedStatement)
  unfolding statements_from
  parse_script terminator =
      statements_from (length script) terminator (record { index = 0; place = (1, 1) })

-- ===== src/Script/Parser/Tests.antt =====
-- Concrete scripts, and the theorem of the parser at one.
use fast_firebird.Base.{ℕ, ◌≡◌, refl, List, [], ◌∷◌, codes, map}
use fast_firebird.Script.Scanner.{
  region_at, region_from, find_pair, find_quote, closed, line_end, q_region, string_,
}
use fast_firebird.Script.Comments.{Parsed, ok, unterminated, ◌>>=◌, line_col}
use fast_firebird.Script.Words.{is_space, is_word, run_of, after_run, trim, trim_end}
use fast_firebird.Script.Parser.{
  ParsedStatement, starts_with, starts_at, advance, matches_terminator, starts_folded,
  after_set_term, find_terminator, skip_trivia, consume_set_term, scan_body, statement_of, emit,
  round, statements_from, parse_script,
}
use fast_firebird.Script.Parser.Cursors.{Ended}
use fast_firebird.Script.Parser.Positions.{Stands, parse_script-Stands}

abbrev as_is : ℕ → List ℕ
as_is c = c ∷ []

-- The texts and the positions of the statements.
abbrev texts : List ℕ → Parsed (List (List ℕ × ℕ × ℕ))
texts script = parse_script as_is script (codes ";") >>= λ statements.
    ok (map (λ (s : ParsedStatement). (s.sql, s.place.0, s.place.1)) statements)

two_terminators_lem :
    texts (codes "set term ^ ;\n a ';' ; b^ set term ; ^\n/* x */ c")
    ≡ ok ((codes "a ';' ; b", 2, 2) ∷ (codes "c", 3, 9) ∷ [])
unfolding parse_script statements_from round emit statement_of scan_body consume_set_term
    skip_trivia find_terminator after_set_term starts_folded matches_terminator advance starts_at
    starts_with trim trim_end after_run run_of is_word is_space line_col region_at region_from
    find_pair find_quote closed line_end q_region
two_terminators_lem = refl

open_string_lem : texts (codes "a;\n 'b") ≡ unterminated string_ 2 2
unfolding parse_script statements_from round emit statement_of scan_body consume_set_term
    skip_trivia find_terminator after_set_term starts_folded matches_terminator advance starts_at
    starts_with trim trim_end after_run run_of is_word is_space line_col region_at region_from
    find_pair find_quote closed line_end q_region
open_string_lem = refl

-- With six blanks SET TERM is a statement for the server.
six_blanks_lem : texts (codes "set      term ^;") ≡ ok ((codes "set      term ^", 1, 1) ∷ [])
unfolding parse_script statements_from round emit statement_of scan_body consume_set_term
    skip_trivia find_terminator after_set_term starts_folded matches_terminator advance starts_at
    starts_with trim trim_end after_run run_of is_word is_space line_col region_at region_from
    find_pair find_quote closed line_end q_region
six_blanks_lem = refl

parse_script-Stands_example :
    Ended (Stands as_is (codes "a;b") 0) (parse_script as_is (codes "a;b") (codes ";"))
parse_script-Stands_example = parse_script-Stands as_is (codes "a;b") (codes ";")

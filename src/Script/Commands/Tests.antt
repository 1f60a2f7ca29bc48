-- ===== src/Script/Commands/Tests.antt =====
-- Statements that are commands of the driver, and the theorems about them at concrete words.
use fast_firebird.Base.{
  ℕ, ◌≡◌, refl, ◌↔◌, Bool, true, false, none, some, List, [], ◌∷◌, ◌++◌, codes,
}
use fast_firebird.Params.Tpb.{read_committed}
use fast_firebird.Script.Scanner.{region_at, region_from, find_pair, closed}
use fast_firebird.Script.Comments.{strip_comments, comment_ranges, ranges_from, blanked}
use fast_firebird.Script.Words.{
  is_space, is_word, starts_word, in_word, run_of, after_run, drop_semicolons, to_lower_case,
  tokens_from, tokens_of, words_from, words_of, comments_to_spaces,
}
use fast_firebird.Script.Commands.{
  Token, commit, rollback, set_transaction, unsupported, clause, snapshot_at_number, next_is,
  skip_word, retain_from, end_transaction, snapshot_clause, clause_of, clauses_from,
  parse_set_transaction, command_of, is_number, classify_client_command, classify_server_statement,
  server_kind, ddl, dml, other,
}
use fast_firebird.Script.Commands.Forms.{end_form, command_of-ended_iff}
use fast_firebird.Script.Commands.Options.{
  WaitWords, lock_timeout, access_words, wait_words, auto_words, isolation_words, asked,
  parse_set_transaction-words,
}

abbrev as_is : ℕ → List ℕ
as_is c = c ∷ []

commits_lem : classify_client_command as_is (codes "COMMIT /* now */ work;") ≡ some (commit false)
unfolding classify_client_command strip_comments comment_ranges ranges_from region_at region_from
    find_pair closed blanked is_space is_word starts_word in_word run_of after_run drop_semicolons
    to_lower_case tokens_from tokens_of command_of end_transaction retain_from next_is skip_word
commits_lem = refl

kind_lem :
    (classify_server_statement as_is (codes "-- a\ncreate table t (i int)") ≡ ddl)
    × (classify_server_statement as_is (codes "Update t set i = 1") ≡ dml)
    × (classify_server_statement as_is (codes "select 1 from t") ≡ other)
unfolding classify_server_statement comments_to_spaces after_run run_of words_of words_from
    starts_word in_word is_word to_lower_case server_kind next_is find_pair
kind_lem = (refl, refl, refl)

abbrev at_number : List Token
at_number = codes "snapshot" ∷ codes "at" ∷ codes "number" ∷ codes "5" ∷ []

at_number_lem : parse_set_transaction at_number [] ≡ unsupported (clause snapshot_at_number)
unfolding parse_set_transaction clauses_from clause_of snapshot_clause next_is
at_number_lem = refl

savepoint_lem : command_of (codes "rollback" ∷ codes "work" ∷ codes "to" ∷ codes "s" ∷ []) [] ≡ none
unfolding command_of end_transaction next_is skip_word
savepoint_lem = refl

command_of-ended_iff_example :
    (command_of (end_form false true true false) [] ≡ some (rollback true)) ↔ (
      (work : Bool) × (snap : Bool) × (end_form false true true false
        ≡ end_form false work true snap))
command_of-ended_iff_example = command_of-ended_iff (end_form false true true false) [] false true

abbrev ten_seconds : WaitWords
ten_seconds = lock_timeout (codes "10")

parse_set_transaction-words_example :
    parse_set_transaction
      (access_words (some true)
        ++ (wait_words ten_seconds ++ (auto_words true ++ isolation_words (some read_committed))))
      []
    ≡ set_transaction (asked (some true) ten_seconds true (some read_committed)) []
parse_set_transaction-words_example =
    parse_set_transaction-words (some true) ten_seconds true (some read_committed) []
      (unfold is_number in refl)

-- ===== src/Script/Commands.antt =====
-- packages/core/src/script/parser.ts: the commands that the driver executes itself.
-- A `reason` is kept as the parts its message is made of. `Number` of a text of digits is exact
-- here; the source's is for values up to 2 ^ 53.
pub mod Forms
pub mod Options
mod Tests
use Prim.Native.String.{String}
use fast_firebird.Base.{
  ℕ, zero, suc, ◌+◌, ◌*◌, ◌-◌, Bool, true, false, ◌&&◌, ◌||◌, Option, none, some, List, [], ◌∷◌,
  ◌==◌, if◌then◌else◌, length, drop, take, pos,
}
use fast_firebird.Params.Tpb.{
  TransactionOptions, IsolationLevel, snapshot, serializable, read_committed,
  read_committed_no_rec_version, flag, seconds,
}
use fast_firebird.Script.Comments.{Parsed, ok, strip_comments}
use fast_firebird.Script.Words.{
  is, is_digit, tokens_of, words_of, drop_semicolons, to_lower_case, comments_to_spaces,
}

abbrev pub Token : Type 0
Token = List ℕ

-- The clauses of SET TRANSACTION that the driver refuses; a word that is not there is `none`.
pub data Clause : Type 0 where
  read_consistency no_auto_undo snapshot_at_number lock_ auto_release reserving ignore_limbo :
      Clause
  restart_requests : Clause
  read_other no_other : Option Token → Clause
  starting_at : Token → Clause

pub data Reason : Type 0 where
  unexpected : Token → Token → Reason
  autoddl_argument : Reason
  clause : Clause → Reason

pub data ClientCommand : Type 0 where
  reconnect : ClientCommand
  commit rollback : Bool → ClientCommand
  set_transaction : TransactionOptions → List ℕ → ClientCommand
  set_auto_ddl : Bool → ClientCommand
  unsupported : Reason → ClientCommand

-- `tokens[i] === "…"` for the first of the tokens from i on.
unfoldable pub next_is : String → List Token → Bool
next_is s [] = false
next_is s (t ∷ rest) = is t s

-- `if (tokens[i] === "…") i++;`
unfoldable pub skip_word : String → List Token → List Token
skip_word s tokens = if next_is s tokens then drop 1 tokens else tokens

-- COMMIT or ROLLBACK behind its optional WORK.
unfoldable pub retain_from : Token → List Token → ClientCommand
unfolding next_is skip_word
retain_from w1 tokens =
    let retain = next_is "retain" tokens in
    let rest = if retain then skip_word "snapshot" (drop 1 tokens) else tokens in
    elim rest [
      | [] ↦ if is w1 "commit" then commit retain else rollback retain
      | t ∷ _ ↦ unsupported (unexpected w1 t)
    ]

unfoldable pub end_transaction : Token → List Token → Option ClientCommand
unfolding next_is skip_word
end_transaction w1 tokens =
    let rest = skip_word "work" tokens in
    if is w1 "rollback" && next_is "to" rest then none else some (retain_from w1 rest)

-- What a round of the loop does: further tokens to take, and the options, or a refusal.
pub data Round : Type 0 where
  took : ℕ → TransactionOptions → Round
  refused : Clause → Round

abbrev pub no_options : TransactionOptions
no_options = record {
  isolation = none;
  read_only = none;
  wait = none;
  auto_commit = none;
  auto_upgrade_read_only = none;
}

unfoldable pub isolated : IsolationLevel → TransactionOptions → TransactionOptions
isolated level o = record o { isolation = some level }

unfoldable pub read_clause : List Token → TransactionOptions → Round
unfolding isolated
read_clause [] o = refused (read_other none)
read_clause (t ∷ rest) o =
    if is t "write"
    then took 1 (record o { read_only = some false })
    else if is t "only"
    then took 1 (record o { read_only = some true })
    else if is t "committed" || is t "uncommitted"
    then took 1 (isolated read_committed_no_rec_version o)
    else if is t "consistency"
    then refused read_consistency
    else refused (read_other (some t))

unfoldable pub no_clause : List Token → TransactionOptions → Round
unfolding isolated
no_clause [] o = refused (no_other none)
no_clause (t ∷ rest) o =
    if is t "wait"
    then took 1 (record o { wait = some (flag false) })
    else if is t "version" || is t "record_version"
    then took 1 (isolated read_committed_no_rec_version o)
    else if is t "auto"
    then refused no_auto_undo
    else refused (no_other (some t))

unfoldable pub snapshot_clause : List Token → TransactionOptions → Round
unfolding isolated next_is
snapshot_clause rest o =
    if next_is "table" rest
    then took (if next_is "stability" (drop 1 rest) then 2 else 1) (isolated serializable o)
    else if next_is "at" rest
    then refused snapshot_at_number
    else took 0 (isolated snapshot o)

abbrev all_digits : Token → Bool
all_digits [] = true
all_digits (c ∷ s) = is_digit c && all_digits s

-- `/^\d+$/.test(tokens[i] ?? '')`
unfoldable pub is_number : Token → Bool
is_number [] = false
is_number (c ∷ s) = is_digit c && all_digits s

unfoldable pub number_from : ℕ → Token → ℕ
number_from n [] = n
number_from n (c ∷ s) = number_from (n * 10 + (c - 48)) s

unfoldable pub lock_clause : List Token → TransactionOptions → Round
lock_clause (t ∷ n ∷ rest) o =
    if is t "timeout" && is_number n
    then took 2 (record o { wait = some (seconds (pos (number_from 0 n))) })
    else refused lock_
lock_clause _ o = refused lock_

unfoldable pub auto_clause : List Token → TransactionOptions → Round
unfolding next_is
auto_clause rest o =
    if next_is "commit" rest
    then took 1 (record o { auto_commit = some true })
    else refused auto_release

-- The `switch` of parseSetTransaction: `rest` are the tokens behind t.
unfoldable pub clause_of : Token → List Token → TransactionOptions → Round
unfolding isolated next_is read_clause no_clause snapshot_clause lock_clause auto_clause
clause_of t rest o =
    if is t "read"
    then read_clause rest o
    else if is t "wait"
    then took 0 (record o { wait = some (flag true) })
    else if is t "no"
    then no_clause rest o
    else if is t "version" || is t "record_version"
    then took 0 (isolated read_committed o)
    else if is t "isolation"
    then took (if next_is "level" rest then 1 else 0) o
    else if is t "snapshot"
    then snapshot_clause rest o
    else if is t "lock"
    then lock_clause rest o
    else if is t "auto"
    then auto_clause rest o
    else if is t "reserving"
    then refused reserving
    else if is t "ignore"
    then refused ignore_limbo
    else if is t "restart"
    then refused restart_requests
    else refused (starting_at t)

-- The loop; the first argument is how many of the tokens are taken already.
unfoldable pub clauses_from : ℕ → TransactionOptions → List Token → Round
unfolding clause_of
clauses_from k o [] = took 0 o
clauses_from (suc k) o (t ∷ rest) = clauses_from k o rest
clauses_from zero o (t ∷ rest) = elim (clause_of t rest o) [
  | took k o' ↦ clauses_from k o' rest
  | refused c ↦ refused c
]

unfoldable pub parse_set_transaction : List Token → List ℕ → ClientCommand
unfolding clauses_from
parse_set_transaction tokens raw = elim (clauses_from 0 no_options tokens) [
  | took k o ↦ set_transaction o raw
  | refused c ↦ unsupported (clause c)
]

-- `tokens` are those behind SET AUTODDL.
unfoldable pub autoddl : List Token → ClientCommand
autoddl (t ∷ []) =
    if is t "on"
    then set_auto_ddl true
    else if is t "off"
    then set_auto_ddl false
    else unsupported autoddl_argument
autoddl _ = unsupported autoddl_argument

unfoldable pub set_command : List Token → List ℕ → Option ClientCommand
unfolding parse_set_transaction autoddl
set_command [] raw = none
set_command (w2 ∷ rest) raw =
    if is w2 "transaction"
    then some (parse_set_transaction rest raw)
    else if is w2 "autoddl" || is w2 "auto"
    then some (autoddl rest)
    else none

-- The `switch (w1)` of classifyClientCommand.
unfoldable pub command_of : List Token → List ℕ → Option ClientCommand
unfolding end_transaction set_command
command_of [] raw = none
command_of (w1 ∷ rest) raw =
    if is w1 "reconnect"
    then if length rest == 0 then some reconnect else none
    else if is w1 "commit" || is w1 "rollback"
    then end_transaction w1 rest
    else if is w1 "set"
    then set_command rest raw
    else none

pub data StatementKind : Type 0 where
  ddl dml other client : StatementKind

-- The `switch (w1)` of classifyServerStatement.
unfoldable pub server_kind : List Token → StatementKind
unfolding next_is
server_kind [] = other
server_kind (w1 ∷ rest) =
    if is w1 "create"
      || is w1 "alter"
      || is w1 "drop"
      || is w1 "recreate"
      || is w1 "comment"
      || is w1 "grant"
      || is w1 "revoke"
      || is w1 "declare"
    then ddl
    else if is w1 "set"
    then if next_is "generator" rest then ddl else other
    else if is w1 "insert" || is w1 "update" || is w1 "delete" || is w1 "merge"
    then dml
    else if is w1 "execute"
    then if next_is "procedure" rest then dml else other
    else other

module _ (lower_wide : ℕ → List ℕ) where
  unfoldable pub classify_client_command : List ℕ → Option ClientCommand
  unfolding command_of
  classify_client_command sql = elim (strip_comments sql) [
    | ok stripped ↦ command_of (tokens_of (to_lower_case lower_wide (drop_semicolons stripped))) sql
    | _ ↦ none
  ]

  unfoldable pub classify_server_statement : List ℕ → StatementKind
  unfolding server_kind
  classify_server_statement sql =
      let head = comments_to_spaces 400 (take 400 sql) in
      server_kind (words_of (to_lower_case lower_wide head))

  unfoldable pub classify_statement : List ℕ → StatementKind
  unfolding classify_client_command classify_server_statement
  classify_statement sql = elim (classify_client_command sql) [
    | some c ↦ client
    | none ↦ classify_server_statement sql
  ]

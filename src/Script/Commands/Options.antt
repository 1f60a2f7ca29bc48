-- ===== src/Script/Commands/Options.antt =====
-- The clauses of SET TRANSACTION and the options they become, and which statements are commands.
use fast_firebird.Base.{
  ◌≡◌, refl, Bool, true, false, Option, none, some, List, [], ◌∷◌, ◌++◌, codes, if◌then◌else◌, ℕ,
  pos,
}
use fast_firebird.Params.Tpb.{
  TransactionOptions, IsolationLevel, snapshot, serializable, read_committed,
  read_committed_no_rec_version, Wait, flag, seconds,
}
use fast_firebird.Script.Commands.{
  Token, set_transaction, next_is, isolated, read_clause, no_clause, snapshot_clause, is_number,
  number_from, lock_clause, auto_clause, clause_of, clauses_from, parse_set_transaction, no_options,
  took,
}

abbrev pub access_words : Option Bool → List Token
access_words none = []
access_words (some true) = codes "read" ∷ codes "only" ∷ []
access_words (some false) = codes "read" ∷ codes "write" ∷ []

-- A lock wait as it is written: WAIT, NO WAIT, or LOCK TIMEOUT with its digits.
pub data WaitWords : Type 0 where
  unsaid wait_ no_wait : WaitWords
  lock_timeout : Token → WaitWords

abbrev pub wait_words : WaitWords → List Token
wait_words unsaid = []
wait_words wait_ = codes "wait" ∷ []
wait_words no_wait = codes "no" ∷ codes "wait" ∷ []
wait_words (lock_timeout digits) = codes "lock" ∷ codes "timeout" ∷ digits ∷ []

abbrev pub AreDigits : WaitWords → Type 0
AreDigits (lock_timeout digits) = is_number digits ≡ true
AreDigits _ = Unit {0}

abbrev pub waited : WaitWords → Option Wait
waited unsaid = none
waited wait_ = some (flag true)
waited no_wait = some (flag false)
waited (lock_timeout digits) = some (seconds (pos (number_from 0 digits)))

abbrev pub auto_words : Bool → List Token
auto_words b = if b then codes "auto" ∷ codes "commit" ∷ [] else []

abbrev pub isolation_words : Option IsolationLevel → List Token
isolation_words none = []
isolation_words (some snapshot) = codes "isolation" ∷ codes "level" ∷ codes "snapshot" ∷ []
isolation_words (some serializable) =
    codes "isolation" ∷ codes "level" ∷ codes "snapshot" ∷ codes "table" ∷ codes "stability" ∷ []
isolation_words (some read_committed) =
    codes "read" ∷ codes "committed" ∷ codes "record_version" ∷ []
isolation_words (some read_committed_no_rec_version) =
    codes "read" ∷ codes "committed" ∷ codes "no" ∷ codes "record_version" ∷ []

isolation_words_taken :
    (i : Option IsolationLevel) (o : TransactionOptions)
    → o.isolation ≡ none
    → clauses_from 0 o (isolation_words i) ≡ took 0 (record o { isolation = i })
unfolding clauses_from clause_of isolated read_clause no_clause snapshot_clause next_is
isolation_words_taken none o h = λ k. took 0 (record o { isolation = h k })
isolation_words_taken (some snapshot) o h = refl
isolation_words_taken (some serializable) o h = refl
isolation_words_taken (some read_committed) o h = refl
isolation_words_taken (some read_committed_no_rec_version) o h = refl

-- The options that some clauses ask for.
abbrev pub asked : Option Bool → WaitWords → Bool → Option IsolationLevel → TransactionOptions
asked access w auto i = record {
  isolation = i;
  read_only = access;
  wait = waited w;
  auto_commit = if auto then some true else none;
  auto_upgrade_read_only = none;
}

auto_taken :
    (access : Option Bool) (w : WaitWords) (auto : Bool) (i : Option IsolationLevel)
    → clauses_from 0 (asked access w false none) (auto_words auto ++ isolation_words i)
      ≡ took 0 (asked access w auto i)
unfolding clauses_from clause_of auto_clause next_is
auto_taken access w true i = isolation_words_taken i (asked access w true none) refl
auto_taken access w false i = isolation_words_taken i (asked access w false none) refl

wait_taken :
    (access : Option Bool) (w : WaitWords) (auto : Bool) (i : Option IsolationLevel)
    → AreDigits w
    → clauses_from 0
        (asked access unsaid false none)
        (wait_words w ++ (auto_words auto ++ isolation_words i))
      ≡ took 0 (asked access w auto i)
unfolding clauses_from clause_of no_clause lock_clause
wait_taken access unsaid auto i h = auto_taken access unsaid auto i
wait_taken access wait_ auto i h = auto_taken access wait_ auto i
wait_taken access no_wait auto i h = auto_taken access no_wait auto i
wait_taken access (lock_timeout digits) auto i h =
    rw (h, clauses_from) (auto_taken access (lock_timeout digits) auto i)

access_taken :
    (access : Option Bool) (w : WaitWords) (auto : Bool) (i : Option IsolationLevel)
    → AreDigits w
    → clauses_from 0 no_options
        (access_words access ++ (wait_words w ++ (auto_words auto ++ isolation_words i)))
      ≡ took 0 (asked access w auto i)
unfolding clauses_from clause_of read_clause
access_taken none w auto i h = wait_taken none w auto i h
access_taken (some true) w auto i h = wait_taken (some true) w auto i h
access_taken (some false) w auto i h = wait_taken (some false) w auto i h

-- The clauses of access, wait, auto commit and isolation, each written or left out, become the
-- options that they name and no others, if the timeout is digits.
pub parse_set_transaction-words :
    (access : Option Bool) (w : WaitWords) (auto : Bool) (i : Option IsolationLevel) (raw : List ℕ)
    → AreDigits w
    → parse_set_transaction
        (access_words access ++ (wait_words w ++ (auto_words auto ++ isolation_words i)))
        raw
      ≡ set_transaction (asked access w auto i) raw
unfolding parse_set_transaction
parse_set_transaction-words access w auto i raw h =
    rw (access_taken access w auto i h, parse_set_transaction) refl

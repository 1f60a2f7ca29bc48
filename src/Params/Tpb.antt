-- ===== src/Params/Tpb.antt =====
-- packages/core/src/protocol/transaction.ts: the options of a transaction and the buffer they become.
use fast_firebird.Base.{Bool, true, false, Option, none, some, if◌then◌else◌, ℤ, pos}
use fast_firebird.Params.{Buffer, new_buffer, tag, int32}

pub data IsolationLevel : Type 0 where
  snapshot serializable read_committed read_committed_no_rec_version : IsolationLevel

-- `wait?: boolean | number`
pub data Wait : Type 0 where
  flag : Bool → Wait
  seconds : ℤ → Wait

-- A field is `none` where it is missing or undefined.
pub record TransactionOptions : Type 0 where
  pub isolation : Option IsolationLevel
  pub read_only : Option Bool
  pub wait : Option Wait
  pub auto_commit : Option Bool
  pub auto_upgrade_read_only : Option Bool

abbrev pub or_else {ℓ} : {A : Type ℓ} → Option A → Option A → Option A
or_else none b = b
or_else (some a) b = some a

-- The fields of the overrides that are not undefined win.
unfoldable pub merge_fields : TransactionOptions → TransactionOptions → TransactionOptions
merge_fields d o = record {
  isolation = or_else o.isolation d.isolation;
  read_only = or_else o.read_only d.read_only;
  wait = or_else o.wait d.wait;
  auto_commit = or_else o.auto_commit d.auto_commit;
  auto_upgrade_read_only = or_else o.auto_upgrade_read_only d.auto_upgrade_read_only;
}

unfoldable pub merge_transaction_options :
    TransactionOptions → Option TransactionOptions → TransactionOptions
merge_transaction_options defaults none = defaults
merge_transaction_options defaults (some overrides) = merge_fields defaults overrides

abbrev pub default_lock_timeout_seconds : ℤ
default_lock_timeout_seconds = pos 10

abbrev pub or_default {ℓ} : {A : Type ℓ} → Option A → A → A
or_default none d = d
or_default (some a) d = a

unfoldable pub isolation_tags : IsolationLevel → Buffer → Buffer
isolation_tags snapshot pb = tag 2 pb
isolation_tags serializable pb = tag 1 pb
isolation_tags read_committed pb = tag 17 (tag 15 pb)
isolation_tags read_committed_no_rec_version pb = tag 18 (tag 15 pb)

unfoldable pub wait_tags : Wait → Buffer → Buffer
wait_tags (flag false) pb = tag 7 pb
wait_tags (flag true) pb = tag 6 pb
wait_tags (seconds n) pb = int32 21 n (tag 6 pb)

unfoldable pub build_tpb : TransactionOptions → Buffer
build_tpb opts =
    let pb = isolation_tags (or_default opts.isolation snapshot) (new_buffer (some 3)) in
    let pb' = tag (if or_default opts.read_only false then 8 else 9) pb in
    let pb'' = wait_tags (or_default opts.wait (seconds default_lock_timeout_seconds)) pb' in
    if or_default opts.auto_commit false then tag 16 pb'' else pb''

-- ===== src/Params/Tests.antt =====
-- Options on an example, and the theorems applied to it.
use fast_firebird.Base.{◌≡◌, refl, true, false, none, some, [], ◌∷◌, pos, arith}
use fast_firebird.Params.{new_buffer, tag, int32}
use fast_firebird.Params.Tpb.{
  TransactionOptions, read_committed, serializable, seconds, flag, build_tpb, isolation_tags,
  wait_tags,
}
use fast_firebird.Params.Reading.{effective, read_tpb, read_tpb-build_tpb}

abbrev reader : TransactionOptions
reader = record {
  isolation = some read_committed;
  read_only = some true;
  wait = some (seconds (pos 300));
  auto_commit = none;
  auto_upgrade_read_only = none;
}

abbrev strict : TransactionOptions
strict = record {
  isolation = some serializable;
  read_only = none;
  wait = some (flag false);
  auto_commit = some true;
  auto_upgrade_read_only = none;
}

test_reader : build_tpb reader ≡ 3 ∷ 15 ∷ 17 ∷ 8 ∷ 6 ∷ 21 ∷ 4 ∷ 44 ∷ 1 ∷ 0 ∷ 0 ∷ []
unfolding build_tpb isolation_tags wait_tags tag int32 new_buffer
test_reader = refl

read_tpb-build_tpb_example : read_tpb (build_tpb reader) ≡ some (effective reader)
read_tpb-build_tpb_example = read_tpb-build_tpb reader (omega arith)

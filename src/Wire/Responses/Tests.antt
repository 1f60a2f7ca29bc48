-- ===== src/Wire/Responses/Tests.antt =====
-- Operations read from an example, and the theorems applied to it.
use fast_firebird.Base.{ℕ, ◌≡◌, refl, false, none, List, [], ◌∷◌, pos, arith}
use fast_firebird.Wire.Responses.{ok, FirebirdError, gds, read_op}
use fast_firebird.Wire.Responses.Encoding.{word, counted}
use fast_firebird.Wire.Responses.Operations.{
  Packet, keep_alive, deferred_done, inlined, all_sent, blobs_in, read_op-all_sent,
}

abbrev eight : List ℕ
eight = 0 ∷ 0 ∷ 0 ∷ 0 ∷ 0 ∷ 0 ∷ 0 ∷ 7 ∷ []

abbrev packets : List Packet
packets =
    deferred_done (pos 3) eight []
    ∷ keep_alive
    ∷ inlined (record { tx_id = pos 1; blob_id = eight; info = []; content = 1 ∷ 0 ∷ 9 ∷ [] })
    ∷ []

-- A response to an operation that was not deferred.
read_op-all_sent_example :
    read_op 1 (all_sent packets (word (pos 9) (1 ∷ 2 ∷ [])))
    ≡ ok (record { op = pos 9; deferred = 0; blobs = blobs_in packets }) (1 ∷ 2 ∷ [])
read_op-all_sent_example =
    read_op-all_sent packets (pos 9) (1 ∷ 2 ∷ []) 1
      ((omega arith, refl, omega arith), (tt, ((omega arith, refl, omega arith, omega arith), tt)))
      (omega arith) (omega arith) refl

-- The server rejects a deferred free with the code 335544485.
abbrev refused : List ℕ → List ℕ
refused rest = word (pos 0) (
    0
    ∷ 0
    ∷ 0
    ∷ 0
    ∷ 0
    ∷ 0
    ∷ 0
    ∷ 0
    ∷ counted [] (word (pos 1) (word (pos 335544485) (word (pos 0) rest))))

abbrev invalid_statement : FirebirdError
invalid_statement = record {
  gds_code = pos 335544485;
  status = record {
    args = gds (pos 335544485) ∷ [];
    clusters =
        record { code = pos 335544485; warning = false; params = []; interpretation = none } ∷ [];
    state = none;
  };
}

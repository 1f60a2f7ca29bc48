-- ===== src/Wire/Connection.antt =====
-- packages/core/src/protocol/wire.ts (the writing half) and statement.ts (deferred frees).
-- The packet writer is the list of the items written since the last flush: Xdr.Items shows that the
-- growing buffer behaves so. `sent` holds what was handed to `transport.write`, oldest first.
use fast_firebird.Base.{ℕ, ◌+◌, List, [], ◌∷◌, ◌++◌, ◌==◌, Bool, if◌then◌else◌, length, pos}
use fast_firebird.Wire.Xdr.Items.{Item, int, encodings}

pub record WireConnection : Type 0 where
  pub writer : List Item
  pub sent : List (List ℕ)
  pub flush_count : ℕ
  pub deferred_responses : ℕ

unfoldable pub flush : WireConnection → WireConnection
flush w = if length (encodings w.writer) == 0 then w else record w {
  writer = [];
  sent = w.sent ++ encodings w.writer ∷ [];
  flush_count = w.flush_count + 1;
}

unfoldable pub write : List Item → WireConnection → WireConnection
write items w = record w { writer = w.writer ++ items }

unfoldable pub mark_deferred : WireConnection → WireConnection
mark_deferred w = record w { deferred_responses = w.deferred_responses + 1 }

abbrev pub op_free_statement : ℕ
op_free_statement = 67

abbrev pub dsql_drop : ℕ
dsql_drop = 2

unfoldable pub free_statement : ℕ → ℕ → Bool → WireConnection → WireConnection
unfolding write mark_deferred
free_statement handle action immediate w =
    let w' =
      mark_deferred
        (write (int (pos op_free_statement) ∷ int (pos handle) ∷ int (pos action) ∷ []) w) in
    if immediate then flush w' else w'

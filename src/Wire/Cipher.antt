-- ===== src/Wire/Cipher.antt =====
-- packages/core/src/protocol/transport.ts: `WireFilter`, what the transport asks of one direction
-- of a cipher. `process` turns the bytes that arrive and keeps its place in the key stream.
use fast_firebird.Base.{ℕ, List, [], ◌++◌, ◌≡◌}

pub record Cipher : Type 1 where
  pub State : Type 0
  pub process : List ℕ → State → List ℕ × State
  -- Where the stream is cut into packets does not matter.
  pub process_append :
      (xs ys : List ℕ) (s : State)
      → process (xs ++ ys) s
        ≡ ((process xs s).0 ++ (process ys (process xs s).1).0, (process ys (process xs s).1).1)
  pub process_nil : (s : State) → process [] s ≡ ([], s)

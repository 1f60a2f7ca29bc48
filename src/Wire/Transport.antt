-- ===== src/Wire/Transport.antt =====
-- packages/core/src/protocol/transport.ts: the queue of received chunks, the exact reads from it and
-- the encryption of both directions. The socket's events arrive as a list; zlib is not modelled, so
-- the pipeline is that of a connection without compression. The filter is any `Cipher`.
pub mod Chunks
pub mod Queue
pub mod Reads
mod Tests
use fast_firebird.Base.{
  ℕ, zero, suc, ◌+◌, ◌-◌, min, Bool, true, false, Option, none, some, List, [], ◌∷◌, ◌++◌, ltb, leb,
  ◌==◌, if◌then◌else◌, length, take, drop, slice, ◌>>=◌,
}
use fast_firebird.Wire.Cipher.{Cipher}

pub record ByteQueue : Type 0 where
  pub chunks : List (List ℕ)
  pub head : ℕ
  pub count : ℕ

abbrev pub empty_queue : ByteQueue
empty_queue = record { chunks = []; head = 0; count = 0 }

unfoldable pub push : List ℕ → ByteQueue → ByteQueue
push chunk q =
    if length chunk == 0
    then q
    else record q { chunks = q.chunks ++ chunk ∷ []; count = q.count + length chunk }

-- The state behind a read that ends at `head` of the first chunk: a chunk that is used up goes.
unfoldable pub advance : ℕ → List ℕ → List (List ℕ) → List (List ℕ) × ℕ
advance head first rest = if head == length first then (rest, 0) else (first ∷ rest, head)

-- The loop of `take` with `need` bytes to copy; `out` is filled from the left. It goes on with the
-- next chunk, since a chunk that is not used up had all that was needed. No chunk left is the read
-- of a property of undefined.
unfoldable pub gather : List (List ℕ) → ℕ → ℕ → Option (List ℕ × List (List ℕ) × ℕ)
gather [] head need = if need == 0 then some ([], [], head) else none
gather (c ∷ rest) head need =
    let want = min (length c - head) need in
    let copied = slice head (head + want) c in
    let more = gather rest 0 (need - want) in
    if need == 0
    then some ([], c ∷ rest, head)
    else if head + want == length c
    then (do out ← more; some (copied ++ out.0, out.1, out.2))
    else some (copied, c ∷ rest, head + want)

unfoldable pub take_bytes : ℕ → ByteQueue → Option (List ℕ × ByteQueue)
take_bytes n q = elim q.chunks [
  | [] ↦ none
  | first ∷ rest ↦
      if leb n (length first - q.head)
      then (let after = advance (q.head + n) first rest in
          some (
            slice q.head (q.head + n) first,
            record { chunks = after.0; head = after.1; count = q.count - n },
          ))
      else (do
        out ← gather (first ∷ rest) q.head n
        some (out.0, record { chunks = out.1; head = out.2; count = q.count - n }))
]

-- What the socket reports.
pub data SocketEvent : Type 0 where
  received : List ℕ → SocketEvent
  errored closed_by_peer : SocketEvent

module _ (cipher : Cipher) where
  pub record Transport : Type 0 where
    pub rx : ByteQueue
    pub rx_crypt : Option cipher.State
    pub tx_crypt : Option cipher.State
    pub failed : Bool
    pub closed : Bool
    -- What was handed to `socket.write`, oldest first.
    pub written : List (List ℕ)

  pub data ReadOutcome : Type 0 where
    got : List ℕ → List SocketEvent → Transport → ReadOutcome
    waits : Transport → ReadOutcome
    throws : ReadOutcome

  abbrev pub crypt : List ℕ → Option cipher.State → List ℕ × Option cipher.State
  crypt bytes none = (bytes, none)
  crypt bytes (some s) = let out = cipher.process bytes s in (out.0, some out.1)

  unfoldable pub install_crypt : cipher.State → cipher.State → Transport → Transport
  install_crypt tx rx t = record t { rx_crypt = some rx; tx_crypt = some tx }

  unfoldable pub on_data : List ℕ → Transport → Transport
  on_data bytes t =
      let out = crypt bytes t.rx_crypt in record t { rx = push out.0 t.rx; rx_crypt = out.1 }

  unfoldable pub deliver : SocketEvent → Transport → Transport
  deliver (received bytes) t = on_data bytes t
  deliver errored t = record t { failed = true }
  deliver closed_by_peer t = if t.closed then t else record t { failed = true }

  unfoldable pub taken : ℕ → List SocketEvent → Transport → ReadOutcome
  taken n events t = elim (take_bytes n t.rx) [
    | some out ↦ got out.0 events (record t { rx = out.1 })
    | none ↦ throws
  ]

  -- The loop of `read` as far as the events go.
  unfoldable pub read : ℕ → List SocketEvent → Transport → ReadOutcome
  read n [] t = if ltb t.rx.count n then (if t.failed then throws else waits t) else taken n [] t
  read n (e ∷ events) t = elim (ltb t.rx.count n) [
    | true ↦ if t.failed then throws else read n events (deliver e t)
    | false ↦ taken n (e ∷ events) t
  ]

  unfoldable pub socket_write : List ℕ → Transport → Transport
  socket_write bytes t =
      let out = crypt bytes t.tx_crypt in
      if t.failed then t else record t { tx_crypt = out.1; written = t.written ++ out.0 ∷ [] }

  -- `write` throws what the connection failed with.
  unfoldable pub write_packet : List ℕ → Transport → Option Transport
  write_packet bytes t = if t.failed then none else some (socket_write bytes t)

  unfoldable pub close : Transport → Transport
  close t = record t { closed = true }

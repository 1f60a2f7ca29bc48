-- ===== src/Blob/Channel.antt =====
-- packages/core/src/protocol/blob.ts over a connection: the requests written so far, how many of
-- them are flushed, how many responses to deferred requests are still to come, and the responses that the
-- server will give, in order, those to deferred requests among them. An await takes the next
-- response that is its own; `waiting` is an await of a response that has not come.
pub mod Reads
pub mod Writes
pub mod Reading
pub mod Drained
pub mod InStep
pub mod Chunks
pub mod Streams
pub mod Many
mod Tests
use fast_firebird.Base.{
  ℕ, zero, suc, ◌+◌, ◌-◌, ◌*◌, ◌^◌, Bool, true, false, List, [], ◌∷◌, ◌++◌, ◌==◌, ltb,
  if◌then◌else◌, length, take, drop, min, max, get_or, le_value, ℤ, pos,
}
use fast_firebird.Wire.Xdr.Items.{Item, int, uint, counted, bare}
use fast_firebird.Wire.Responses.{is_code}
use fast_firebird.Blob.Segments.{parse_segment_frames}

pub data Request : Type 0 where
  open_blob : ℕ → List ℕ → Request
  create_blob : ℕ → Request
  get_segment info_blob : ℤ → ℕ → Request
  close_blob : ℤ → Request
  batch_segments : ℤ → List ℕ → Request

-- What a request writes: the operation and its arguments.
unfoldable pub items_of : Request → List Item
items_of (open_blob tx id) = int (pos 35) ∷ int (pos tx) ∷ bare id ∷ []
items_of (create_blob tx) = int (pos 57) ∷ uint 0 ∷ int (pos tx) ∷ int (pos 0) ∷ int (pos 0) ∷ []
items_of (get_segment handle n) = int (pos 36) ∷ int handle ∷ int (pos n) ∷ int (pos 0) ∷ []
items_of (info_blob handle n) =
    int (pos 43) ∷ int handle ∷ int (pos 0) ∷ counted (6 ∷ []) ∷ int (pos n) ∷ []
items_of (close_blob handle) = int (pos 39) ∷ int handle ∷ []
items_of (batch_segments handle framed) =
    int (pos 44) ∷ int handle ∷ int (pos (length framed)) ∷ counted framed ∷ []

-- An op_response, or the error that its status vector holds.
pub data Reply (E : Type 0) : Type 0 where
  response : ℤ → List ℕ → List ℕ → Reply E
  failure : E → Reply E

pub record Channel (E : Type 0) : Type 0 where
  pub requests : List Request
  pub flushed : ℕ
  pub deferred : ℕ
  pub replies : List (Reply E)

pub data Outcome (E A : Type 0) : Type 0 where
  done : A → Channel E → Outcome E A
  threw : E → Channel E → Outcome E A
  waiting : Channel E → Outcome E A

-- `Math.min(Math.max(chunkSize, 1) + 2, MAX_SEGMENT_SIZE)`
abbrev pub buffer_length : ℕ → ℕ
buffer_length chunk_size = min (max chunk_size 1 + 2) 65535

-- A reply to op_get_segment: its data, and whether it is the last.
abbrev pub segment : ℤ × List ℕ × List ℕ → List ℕ × Bool
segment (handle, id, bytes) = (parse_segment_frames bytes, is_code handle 2)

-- blobTotalLength: the little-endian number behind the item and its length; a number that the
-- reply does not hold is NaN in the source, which the server does not send.
unfoldable pub total_length : List ℕ → ℕ
total_length info =
    if ltb (length info) 3
    then 0
    else if get_or info 0 0 == 6
    then le_value (take (get_or info 1 0 + 256 * get_or info 2 0) (drop 3 info))
    else 0

module _ {E : Type 0} where
  unfoldable pub request : Request → Channel E → Channel E
  request r c = record c { requests = c.requests ++ r ∷ [] }

  unfoldable pub flush : Channel E → Channel E
  flush c = record c { flushed = length c.requests }

  -- closeBlobDeferred
  unfoldable pub close_deferred : ℤ → Channel E → Channel E
  unfolding request
  close_deferred handle c =
      let c' = request (close_blob handle) c in record c' { deferred = c'.deferred + 1 }

  -- The loop of readOp over the responses to deferred requests: one that went well is passed over, and
  -- an error of one is thrown, with what is behind it unread.
  unfoldable pub skip_deferred : ℕ → List (Reply E) → Channel E → Outcome E (Unit {0})
  skip_deferred zero replies c = done tt (record c { replies = replies; deferred = 0 })
  skip_deferred (suc n) [] c = waiting (record c { replies = []; deferred = suc n })
  skip_deferred (suc n) (response handle id bytes ∷ replies) c = skip_deferred n replies c
  skip_deferred (suc n) (failure e ∷ replies) c =
      threw e (record c { replies = replies; deferred = n })

  -- The response behind them: the handle, the id and the data.
  unfoldable pub take_response : Channel E → Outcome E (ℤ × List ℕ × List ℕ)
  take_response c = elim c.replies [
    | [] ↦ waiting c
    | r ∷ rest ↦ elim r [
      | response handle id bytes ↦ done (handle, id, bytes) (record c { replies = rest })
      | failure e ↦ threw e (record c { replies = rest })
    ]
  ]

  infixl 5 ◌then◌
  abbrev pub ◌then◌ : {A B : Type 0} → Outcome E A → (A → Channel E → Outcome E B) → Outcome E B
  done a c then f = f a c
  threw e c then f = threw e c
  waiting c then f = waiting c

  -- readResponse
  unfoldable pub read_response : Channel E → Outcome E (ℤ × List ℕ × List ℕ)
  unfolding skip_deferred take_response
  read_response c = skip_deferred c.deferred c.replies c then λ _ c'. take_response c'

  -- openBlob
  unfoldable pub open_blob_ : ℕ → List ℕ → Channel E → Outcome E ℤ
  unfolding request flush read_response
  open_blob_ tx id c = read_response (flush (request (open_blob tx id) c)) then λ r c'. done r.0 c'

  -- getBlobSegment
  unfoldable pub get_blob_segment : ℤ → ℕ → Channel E → Outcome E (List ℕ × Bool)
  unfolding request flush read_response
  get_blob_segment handle chunk_size c =
      read_response (flush (request (get_segment handle (buffer_length chunk_size)) c)) then λ r c'.
      done (segment r) c'

  unfoldable pub blob_total_length : ℤ → Channel E → Outcome E ℕ
  unfolding request flush read_response total_length
  blob_total_length handle c = read_response (flush (request (info_blob handle 32) c)) then λ r c'.
      done (total_length r.2) c'

  -- `while (inFlight > 0) { inFlight--; await wire.readResponse().catch(() => undefined); }`, and
  -- what the catch clause does then.
  unfoldable pub drain : {A : Type 0} → ℕ → Channel E → (Channel E → Outcome E A) → Outcome E A
  unfolding read_response
  drain zero c then_ = then_ c
  drain (suc n) c then_ = elim (read_response c) [
    | waiting c' ↦ waiting c'
    | threw e c' ↦ drain n c' then_
    | done r c' ↦ drain n c' then_
  ]

-- ===== src/Blob/Channel/Streams.antt =====
-- packages/core/src/protocol/blob.ts: writeBlobStream. The source is what each pull of it gives.
pub mod InStep
pub mod Segmented
pub mod Delivers
pub mod Delivered
use fast_firebird.Base.{
  ℕ, zero, suc, ◌+◌, ◌-◌, ◌<◌, ◌≤◌, ◌≡◌, ◌⊎◌, refl, ap, Bool, true, false, List, [], ◌∷◌, ◌++◌,
  ◌==◌, leb, if◌then◌else◌, length, take, drop, concat, ℤ, length-append, Bool-cases, inl, inr,
  arith,
}
use fast_firebird.Blob.Channel.{
  Request, create_blob, batch_segments, close_blob, Reply, response, failure, Channel, Outcome,
  done, threw, waiting, request, flush, close_deferred, read_response, ◌then◌, drain,
}
use fast_firebird.Blob.Channel.Reads.{pipeline_depth}
use fast_firebird.Blob.Channel.Writes.{segment_size, frame, finish_rounds}

-- A pull of the source: a Buffer, a string, something else, or an error that it throws.
pub data Pull (E : Type 0) : Type 0 where
  buffer text : List ℕ → Pull E
  other : Pull E
  broken : E → Pull E

module _ {E : Type 0} where
  -- The catch clause while the close is not sent.
  unfoldable pub give_up_stream : ℤ → ℕ → E → Channel E → Outcome E (List ℕ)
  unfolding flush drain close_deferred
  give_up_stream handle in_flight e c =
      drain in_flight (flush c) (λ d. threw e (close_deferred handle d))

  -- sendSegment, and what is done behind it with the `inFlight` that it leaves.
  unfoldable pub send_segment :
      ℤ → List ℕ → ℕ → Channel E → (ℕ → Channel E → Outcome E (List ℕ)) → Outcome E (List ℕ)
  unfolding request flush read_response give_up_stream
  send_segment handle chunk in_flight c next =
      let c' = request (batch_segments handle (frame chunk)) c in
      elim (leb pipeline_depth (in_flight + 1)) [
        | false ↦ next (in_flight + 1) c'
        | true ↦ elim (read_response (flush c')) [
          | waiting c'' ↦ waiting c''
          | threw e c'' ↦ give_up_stream handle in_flight e c''
          | done r c'' ↦ next in_flight c''
        ]
      ]

  -- `while (pendingBytes >= segSize)`; a round takes a byte at least, so the length is fuel enough.
  unfoldable pub send_full :
      ℕ
      → ℤ
      → ℕ
      → List (List ℕ)
      → ℕ
      → ℕ
      → Channel E
      → (List (List ℕ) → ℕ → ℕ → Channel E → Outcome E (List ℕ))
      → Outcome E (List ℕ)
  unfolding send_segment
  send_full zero handle size pending pending_bytes in_flight c next =
      next pending pending_bytes in_flight c
  send_full (suc fuel) handle size pending pending_bytes in_flight c next =
      elim (leb size pending_bytes) [
        | false ↦ next pending pending_bytes in_flight c
        | true ↦
            let all = concat pending in
            let rest = drop size all in
            send_segment handle (take size all) in_flight c (λ n c'.
              send_full fuel handle size (if length rest == 0 then [] else rest ∷ []) (length rest)
                n c' next)
      ]

  -- The close and the replies behind it.
  unfoldable pub finish_stream : ℤ → List ℕ → ℕ → Channel E → Outcome E (List ℕ)
  unfolding request flush finish_rounds
  finish_stream handle id in_flight c =
      finish_rounds id c.replies (in_flight + 1) (flush (request (close_blob handle) c))

  module _ (encode_text : List ℕ → E ⊎ List ℕ) (not_bytes : E) where
    -- A pull as bytes.
    unfoldable pub bytes_of : Pull E → E ⊎ List ℕ
    bytes_of (buffer bytes) = inr bytes
    bytes_of (text s) = encode_text s
    bytes_of other = inl not_bytes
    bytes_of (broken e) = inl e

    unfoldable pub stream_rounds :
        ℤ → List ℕ → ℕ → List (Pull E) → List (List ℕ) → ℕ → ℕ → Channel E → Outcome E (List ℕ)
    unfolding give_up_stream send_segment send_full finish_stream bytes_of
    stream_rounds handle id size [] pending pending_bytes in_flight c = elim (pending_bytes == 0) [
      | true ↦ finish_stream handle id in_flight c
      | false ↦ send_segment handle (concat pending) in_flight c (finish_stream handle id)
    ]
    stream_rounds handle id size (raw ∷ source) pending pending_bytes in_flight c =
        elim (bytes_of raw) [
          | inl e ↦ give_up_stream handle in_flight e c
          | inr bytes ↦ elim (length bytes == 0) [
            | true ↦ stream_rounds handle id size source pending pending_bytes in_flight c
            | false ↦
                send_full (pending_bytes + length bytes) handle size (pending ++ bytes ∷ [])
                  (pending_bytes + length bytes) in_flight c (stream_rounds handle id size source)
          ]
        ]

    unfoldable pub write_blob_stream : ℕ → List (Pull E) → ℕ → Channel E → Outcome E (List ℕ)
    unfolding request flush read_response stream_rounds
    write_blob_stream tx source chunk_size c =
        read_response (flush (request (create_blob tx) c)) then λ r c'.
        stream_rounds r.0 r.1 (segment_size chunk_size) source [] 0 0 c'

-- ===== src/Blob/Channel/Writes.antt =====
-- packages/core/src/protocol/blob.ts: writeBlob. The loop runs over the chunks that it cuts the data in.
use fast_firebird.Base.{
  ℕ, zero, suc, ◌+◌, true, false, List, [], ◌∷◌, ◌++◌, ◌==◌, leb, if◌then◌else◌, length, take, drop,
  min, max, le_bytes, ℤ,
}
use fast_firebird.Blob.Channel.{
  create_blob, batch_segments, close_blob, Reply, response, failure, Channel, Outcome, done, threw,
  waiting, request, flush, close_deferred, read_response, ◌then◌, drain,
}
use fast_firebird.Blob.Channel.Reads.{pipeline_depth}

-- `Math.min(Math.max(chunkSize, 1), MAX_SEGMENT_SIZE - 2)`
abbrev pub segment_size : ℕ → ℕ
segment_size chunk_size = min (max chunk_size 1) 65533

-- `for (off = 0; off < data.length || off === 0; off += segSize)` from a chunk on; each round takes a
-- byte at least, so the length is fuel enough.
unfoldable pub chunks_from : ℕ → ℕ → List ℕ → List (List ℕ)
chunks_from zero size bytes = []
chunks_from (suc fuel) size [] = []
chunks_from (suc fuel) size (b ∷ bytes) =
    take size (b ∷ bytes) ∷ chunks_from fuel size (drop size (b ∷ bytes))

-- Of no data, one empty chunk is sent.
unfoldable pub chunks_of : ℕ → List ℕ → List (List ℕ)
unfolding chunks_from
chunks_of size bytes = if length bytes == 0 then [] ∷ [] else chunks_from (length bytes) size bytes

-- `framed`
abbrev pub frame : List ℕ → List ℕ
frame chunk = le_bytes 2 (length chunk) ++ chunk

module _ {E : Type 0} where
  -- `while (inFlight > 0) { inFlight--; await wire.readResponse(); }` behind the close.
  unfoldable pub finish_rounds : List ℕ → List (Reply E) → ℕ → Channel E → Outcome E (List ℕ)
  unfolding drain
  finish_rounds id replies zero c = done id (record c { replies = replies })
  finish_rounds id [] (suc n) c = waiting (record c { replies = [] })
  finish_rounds id (failure e ∷ replies) (suc n) c =
      drain n (record c { replies = replies }) (λ c'. threw e c')
  finish_rounds id (response h i bytes ∷ replies) (suc n) c = finish_rounds id replies n c

  -- The loop over the chunks, with `inFlight`.
  unfoldable pub write_rounds : ℤ → List ℕ → List (List ℕ) → ℕ → Channel E → Outcome E (List ℕ)
  unfolding request flush close_deferred read_response drain finish_rounds
  write_rounds handle id [] in_flight c =
      finish_rounds id c.replies (in_flight + 1) (flush (request (close_blob handle) c))
  write_rounds handle id (chunk ∷ chunks) in_flight c =
      let c' = request (batch_segments handle (frame chunk)) c in
      elim (leb pipeline_depth (in_flight + 1)) [
        | false ↦ write_rounds handle id chunks (in_flight + 1) c'
        | true ↦ elim (read_response (flush c')) [
          | waiting c'' ↦ waiting c''
          | threw e c'' ↦ drain in_flight c'' (λ d. threw e (close_deferred handle d))
          | done r c'' ↦ write_rounds handle id chunks in_flight c''
        ]
      ]

  unfoldable pub write_blob : ℕ → List ℕ → ℕ → Channel E → Outcome E (List ℕ)
  unfolding request flush read_response write_rounds
  write_blob tx bytes chunk_size c = read_response (flush (request (create_blob tx) c)) then λ r c'.
      write_rounds r.0 r.1 (chunks_of (segment_size chunk_size) bytes) 0 c'

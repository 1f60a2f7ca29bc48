-- ===== src/Blob/Channel/Streams/Delivered.antt =====
-- Writing from a source whose requests are answered: the segments are those of its bytes, put together.
use fast_firebird.Base.{
  ℕ, ◌+◌, ◌<◌, ◌≡◌, ◌⊎◌, refl, ap, sym, ◌∙◌, subst, List, [], ◌∷◌, ◌++◌, ◌==◌, length, concat,
  concat-append, ℤ, length-append, append_assoc, append-nil, Bool-cases, inl, inr, arith,
}
use fast_firebird.Blob.Channel.{create_blob, close_blob, Reply, Channel, request, flush}
use fast_firebird.Blob.Channel.Writes.{segment_size}
use fast_firebird.Blob.Channel.Reading.{Response, answered, read_response-answered}
use fast_firebird.Blob.Channel.Chunks.{batches, Sent, segment_size_positive}
use fast_firebird.Blob.Channel.Streams.{
  Pull, send_segment, send_full, finish_stream, bytes_of, stream_rounds, write_blob_stream,
}
use fast_firebird.Blob.Channel.Streams.Segmented.{
  segments_of, segments_of_last, segments_of_none, no_bytes,
}
use fast_firebird.Blob.Channel.Streams.Delivers.{
  Delivers, finish_stream-Delivers, send_segment-Delivers, send_full-Delivers,
}

module _ {E : Type 0} where
  module _ (encode_text : List ℕ → E ⊎ List ℕ) (not_bytes : E) where
    -- The source gives these bytes and then ends.
    abbrev pub Yields : List (Pull E) → List ℕ → Type 0
    Yields [] bytes = bytes ≡ []
    Yields (raw ∷ source) bytes =
        (first : List ℕ) × (later : List ℕ) × (bytes_of encode_text not_bytes raw ≡ inr first)
        × (bytes ≡ first ++ later)
        × Yields source later

    stream_rounds-Delivers :
        (handle : ℤ) (id : List ℕ) (rest : List (Reply E)) (size : ℕ) (source : List (Pull E))
        (bytes : List ℕ) (pending : List (List ℕ)) (pending_bytes : ℕ)
        → 0 < size
        → Yields source bytes
        → pending_bytes ≡ length (concat pending)
        → pending_bytes < size
        → Delivers handle id rest
            (segments_of size (concat pending ++ bytes))
            (stream_rounds encode_text not_bytes handle id size source pending pending_bytes)
    unfolding stream_rounds
    stream_rounds-Delivers handle id rest size [] bytes pending pending_bytes p y e h n answers c r
          l v =
        let all : concat pending ++ bytes ≡ concat pending =
          ap (λ t. concat pending ++ t) y ∙ append-nil (concat pending) in
        elim (Bool-cases (pending_bytes == 0)) [
          | inl t ↦
              let z : segments_of size (concat pending ++ bytes) ≡ [] =
                ap (segments_of size) all
                ∙ segments_of_none size (concat pending) (ground (arith, t, e)) in
              rw (t, stream_rounds)
                (subst (λ x. Delivers handle id rest x (finish_stream handle id)) (sym z)
                  (finish_stream-Delivers handle id rest) n answers c r l v)
          | inr t ↦
              let z : segments_of size (concat pending ++ bytes) ≡ concat pending ∷ [] =
                ap (segments_of size) all
                ∙ segments_of_last size (concat pending) (ground (arith, t, e))
                    (omega (arith, e, h)) in
              rw (t, stream_rounds)
                (subst
                  (λ x.
                    Delivers handle id rest x
                      (λ n c. send_segment handle (concat pending) n c (finish_stream handle id)))
                  (sym z)
                  (send_segment-Delivers handle id rest (concat pending) []
                    (finish_stream handle id) (finish_stream-Delivers handle id rest))
                  n answers c r l v)
        ]
    stream_rounds-Delivers handle id rest size (raw ∷ source) bytes pending pending_bytes p
          (first, later, b, w, y) e h n answers c r l v =
        elim (Bool-cases (length first == 0)) [
          | inl t ↦
              let z : concat pending ++ bytes ≡ concat pending ++ later =
                ap (λ x. concat pending ++ x)
                  (w ∙ ap (λ x. x ++ later) (no_bytes first (ground (arith, t)))) in
              rw (b, t, stream_rounds)
                (subst
                  (λ x. Delivers handle id rest (segments_of size x) (
                    stream_rounds encode_text not_bytes handle id size source pending
                      pending_bytes))
                  (sym z)
                  (stream_rounds-Delivers handle id rest size source later pending pending_bytes p y
                    e h)
                  n answers c r l v)
          | inr t ↦
              let k = concat-append pending first in
              let z : concat (pending ++ first ∷ []) ++ later ≡ concat pending ++ bytes =
                ap (λ x. x ++ later) k
                ∙ append_assoc (concat pending) first later
                ∙ ap (λ x. concat pending ++ x) (sym w) in
              let sum : pending_bytes + length first ≡ length (concat (pending ++ first ∷ [])) =
                omega (arith, e, ap length k, length-append (concat pending) first) in
              rw (b, t, stream_rounds)
                (subst
                  (λ x. Delivers handle id rest (segments_of size x) (λ n c.
                    send_full (pending_bytes + length first) handle size (pending ++ first ∷ [])
                      (pending_bytes + length first) n c
                      (stream_rounds encode_text not_bytes handle id size source)))
                  z
                  (send_full-Delivers handle id rest size later
                    (stream_rounds encode_text not_bytes handle id size source)
                    (pending_bytes + length first) (pending ++ first ∷ [])
                    (pending_bytes + length first) p sum (omega arith)
                    (λ q a e' h'.
                      stream_rounds-Delivers handle id rest size source later q a p y e' h'))
                  n answers c r l v)
        ]

    -- When the source gives its bytes and ends, and the creation, the segments and the close are
    -- answered behind the requests that were deferred before, the call returns the id that the creation gave, having written and flushed the
    -- creation, the bytes cut in segments of the segment size, however the source cut them, and the
    -- close, and leaves the replies behind these.
    pub write_blob_stream-answered :
        (tx : ℕ) (source : List (Pull E)) (bytes : List ℕ) (chunk_size : ℕ) (c : Channel E)
        (skipped : List Response) (created : Response) (answers : List Response)
        (rest : List (Reply E))
        → Yields source bytes
        → length skipped ≡ c.deferred
        → c.replies ≡ answered skipped (answered (created ∷ answers) rest)
        → length answers ≡ length (segments_of (segment_size chunk_size) bytes) + 1
        → Sent created.1
            (c.requests
              ++ create_blob tx
                ∷ (batches created.0 (segments_of (segment_size chunk_size) bytes)
                    ++ close_blob created.0 ∷ []))
            rest
            (write_blob_stream encode_text not_bytes tx source chunk_size c)
    unfolding write_blob_stream request flush
    write_blob_stream-answered tx source bytes chunk_size c skipped created answers rest y f r l =
        let size = segment_size chunk_size in
        let segments = segments_of size bytes in
        let c' : Channel E = record {
          requests = c.requests ++ create_blob tx ∷ [];
          flushed = length (c.requests ++ create_blob tx ∷ []);
          deferred = 0;
          replies = answered answers rest;
        } in
        let q =
          append_assoc c.requests (create_blob tx ∷ [])
            (batches created.0 segments ++ close_blob created.0 ∷ []) in
        rw
          (read_response-answered skipped created (answered answers rest)
            (flush (request (create_blob tx) c)) f r)
          (subst
            (λ x.
              Sent created.1 x rest
                (stream_rounds encode_text not_bytes created.0 created.1 size source [] 0 0 c'))
            q
            (stream_rounds-Delivers created.0 created.1 rest size source bytes [] 0
              (segment_size_positive chunk_size) y refl (segment_size_positive chunk_size) 0 answers
              c' refl (omega (arith, l)) refl))

-- ===== src/Blob/Channel/Chunks.antt =====
-- What writeBlob sends: the chunks that it cuts the data in, and the requests that carry them.
use fast_firebird.Base.{
  ℕ, zero, suc, ◌+◌, ◌<◌, ◌≤◌, ◌≡◌, refl, ap, sym, ◌∙◌, false, List, [], ◌∷◌, ◌++◌, ◌==◌, leb,
  length, concat, take, drop, take-append-drop, length-take, length-drop, append_assoc, Bool-cases,
  inl, inr, All, arith, ℤ, subst,
}
use fast_firebird.Blob.Channel.{
  Request, create_blob, batch_segments, close_blob, Reply, Channel, Outcome, done, request, flush,
}
use fast_firebird.Blob.Channel.Reads.{pipeline_depth}
use fast_firebird.Blob.Channel.Writes.{
  segment_size, chunks_from, chunks_of, frame, finish_rounds, write_rounds, write_blob,
}
use fast_firebird.Blob.Channel.Reading.{Response, answered, read_response-answered}

chunks_from-whole :
    (fuel size : ℕ) (bytes : List ℕ)
    → 0 < size
    → length bytes ≤ fuel
    → (concat (chunks_from fuel size bytes) ≡ bytes)
      × All (λ c. length c ≤ size) (chunks_from fuel size bytes)
unfolding chunks_from
chunks_from-whole zero size [] p h = (refl, tt)
chunks_from-whole zero size (b ∷ bytes) p h = absurd (omega (arith, h))
chunks_from-whole (suc fuel) size [] p h = (refl, tt)
chunks_from-whole (suc fuel) size (b ∷ bytes) p h =
    let z =
      chunks_from-whole fuel size (drop size (b ∷ bytes)) p
        (omega (arith, h, p, length-drop size (b ∷ bytes))) in
    (
      ap (λ t. take size (b ∷ bytes) ++ t) z.0 ∙ take-append-drop size (b ∷ bytes),
      (omega (arith, length-take size (b ∷ bytes)), z.1),
    )

-- The chunks of any data are the data again, put together, and none is longer than the size.
pub chunks_of-whole :
    (size : ℕ) (bytes : List ℕ)
    → 0 < size
    → (concat (chunks_of size bytes) ≡ bytes) × All (λ c. length c ≤ size) (chunks_of size bytes)
unfolding chunks_of
chunks_of-whole size [] p = (refl, (omega arith, tt))
chunks_of-whole size (b ∷ bytes) p =
    let t : (suc (length bytes) == 0) ≡ false = ground arith in
    rw t (chunks_from-whole (length (b ∷ bytes)) size (b ∷ bytes) p (omega arith))

pub segment_size_positive : (chunk_size : ℕ) → 0 < segment_size chunk_size
segment_size_positive chunk_size = ground arith

abbrev pub batches : ℤ → List (List ℕ) → List Request
batches handle [] = []
batches handle (chunk ∷ chunks) = batch_segments handle (frame chunk) ∷ batches handle chunks

module _ {E : Type 0} where
  pub finish_rounds-answered :
      (id : List ℕ) (answers : List Response) (rest : List (Reply E)) (c : Channel E)
      → finish_rounds id (answered answers rest) (length answers) c
        ≡ done id (record c { replies = rest })
  unfolding finish_rounds
  finish_rounds-answered id [] rest c = refl
  finish_rounds-answered id (a ∷ answers) rest c = finish_rounds-answered id answers rest c

  -- The call has returned the id, having written these requests, with these replies left.
  abbrev pub Sent : List ℕ → List Request → List (Reply E) → Outcome E (List ℕ) → Type 0
  Sent id requests rest o =
      (c : Channel E) × (o ≡ done id c)
      × (c.requests ≡ requests)
      × (c.flushed ≡ length requests)
      × (c.replies ≡ rest)

  write_rounds-answered :
      (handle : ℤ) (id : List ℕ) (chunks : List (List ℕ)) (n : ℕ) (answers : List Response)
      (rest : List (Reply E)) (c : Channel E)
      → c.replies ≡ answered answers rest
      → length answers ≡ n + length chunks + 1
      → c.deferred ≡ 0
      → Sent id
          (c.requests ++ (batches handle chunks ++ close_blob handle ∷ []))
          rest
          (write_rounds handle id chunks n c)
  unfolding write_rounds request flush
  write_rounds-answered handle id [] n answers rest c r l f =
      let c' : Channel E = flush (request (close_blob handle) c) in
      let z = finish_rounds-answered id answers rest c' in
      let m : length answers ≡ n + 1 = omega (arith, l) in
      (
        record c' { replies = rest },
        subst (λ t. finish_rounds id t (n + 1) c' ≡ done id (record c' { replies = rest })) (sym r)
            (subst
              (λ t.
                finish_rounds id (answered answers rest) t c'
                ≡ done id (record c' { replies = rest }))
              m z),
        refl,
        refl,
        refl,
      )
  write_rounds-answered handle id (chunk ∷ chunks) n [] rest c r l f = absurd (omega (arith, l))
  write_rounds-answered handle id (chunk ∷ chunks) n (a ∷ answers) rest c r l f =
      let b = batch_segments handle (frame chunk) in
      let q = append_assoc c.requests (b ∷ []) (batches handle chunks ++ close_blob handle ∷ []) in
      elim (Bool-cases (leb pipeline_depth (n + 1))) [
        | inr t ↦
            let z =
              write_rounds-answered handle id chunks (n + 1) (a ∷ answers) rest (request b c) r
                (omega (arith, l)) f in
            rw (t, write_rounds)
              (subst (λ x. Sent id x rest (write_rounds handle id chunks (n + 1) (request b c))) q
                z)
        | inl t ↦
            let c' : Channel E = record {
              requests = c.requests ++ b ∷ [];
              flushed = length (c.requests ++ b ∷ []);
              deferred = 0;
              replies = answered answers rest;
            } in
            let z =
              write_rounds-answered handle id chunks n answers rest c' refl (omega (arith, l))
                refl in
            rw
              (
                t,
                read_response-answered [] a (answered answers rest) (flush (request b c)) (sym f) r,
                write_rounds,
              )
              (subst (λ x. Sent id x rest (write_rounds handle id chunks n c')) q z)
      ]

  -- When the creation, the chunks and the close are answered behind the requests that were deferred
  -- before, writing a blob returns the id that
  -- the creation gave, and it has written and flushed the creation, the chunks in order and the close,
  -- and left the replies behind these. The chunks are the data, put together, and none is
  -- longer than the segment size.
  pub write_blob-answered :
      (tx : ℕ) (bytes : List ℕ) (chunk_size : ℕ) (c : Channel E) (skipped : List Response)
      (created : Response) (answers : List Response) (rest : List (Reply E))
      → length skipped ≡ c.deferred
      → c.replies ≡ answered skipped (answered (created ∷ answers) rest)
      → length answers ≡ length (chunks_of (segment_size chunk_size) bytes) + 1
      → Sent created.1
          (c.requests
            ++ create_blob tx
              ∷ (batches created.0 (chunks_of (segment_size chunk_size) bytes)
                  ++ close_blob created.0 ∷ []))
          rest
          (write_blob tx bytes chunk_size c)
        × (concat (chunks_of (segment_size chunk_size) bytes) ≡ bytes)
        × All (λ s. length s ≤ segment_size chunk_size) (chunks_of (segment_size chunk_size) bytes)
  unfolding write_blob request flush
  write_blob-answered tx bytes chunk_size c skipped created answers rest f r l =
      let chunks = chunks_of (segment_size chunk_size) bytes in
      let c' : Channel E = record {
        requests = c.requests ++ create_blob tx ∷ [];
        flushed = length (c.requests ++ create_blob tx ∷ []);
        deferred = 0;
        replies = answered answers rest;
      } in
      let q =
        append_assoc c.requests (create_blob tx ∷ [])
          (batches created.0 chunks ++ close_blob created.0 ∷ []) in
      let whole =
        chunks_of-whole (segment_size chunk_size) bytes (segment_size_positive chunk_size) in
      (
        rw
            (read_response-answered skipped created (answered answers rest)
              (flush (request (create_blob tx) c)) f r)
            (subst (λ x. Sent created.1 x rest (write_rounds created.0 created.1 chunks 0 c')) q
              (write_rounds-answered created.0 created.1 chunks 0 answers rest c' refl
                (omega (arith, l)) refl)),
        whole.0,
        whole.1,
      )

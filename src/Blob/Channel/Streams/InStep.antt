-- ===== src/Blob/Channel/Streams/InStep.antt =====
-- Whatever the source gives, writing it takes the replies to its own requests and no others.
use fast_firebird.Base.{
  ℕ, zero, suc, ◌+◌, ◌≡◌, ◌⊎◌, refl, ap, List, [], ◌∷◌, ◌++◌, ◌==◌, leb, if◌then◌else◌, length,
  take, drop, concat, ℤ, length-append, Bool-cases, inl, inr, arith,
}
use fast_firebird.Blob.Channel.{
  create_blob, batch_segments, close_blob, Channel, Outcome, threw, request, flush, close_deferred,
  take_response, ◌then◌,
}
use fast_firebird.Blob.Channel.Reads.{pipeline_depth}
use fast_firebird.Blob.Channel.Writes.{segment_size, frame}
use fast_firebird.Blob.Channel.Drained.{
  Settles, drain-Settles, close_counts, finish_rounds-Settles, reply-cases, response-Settles, Clear,
  DeferredWell, read_response_clear,
}
use fast_firebird.Blob.Channel.Streams.{
  Pull, give_up_stream, send_segment, send_full, finish_stream, bytes_of, stream_rounds,
  write_blob_stream,
}

module _ {E : Type 0} where
  -- A continuation that settles whatever is in flight when it is entered.
  abbrev Continues : ℕ → ℕ → (ℕ → Channel E → Outcome E (List ℕ)) → Type 0
  Continues k d next =
      (n : ℕ) (c : Channel E)
      → k + n ≡ length c.requests + length c.replies
      → Clear d c
      → Settles k d (next n c)

  give_up_stream-Settles :
      (handle : ℤ) (e : E) (k d : ℕ) → Continues k d (λ n c. give_up_stream handle n e c)
  unfolding give_up_stream flush
  give_up_stream-Settles handle e k d n c h q =
      drain-Settles n k d (flush c) (λ c'. threw e (close_deferred handle c')) h refl q
        (λ c' h' f' q'. close_counts handle k d c' h' q')

  finish_stream-Settles :
      (handle : ℤ) (id : List ℕ) (k d : ℕ) → Continues k d (finish_stream handle id)
  unfolding finish_stream flush request
  finish_stream-Settles handle id k d n c h q =
      finish_rounds-Settles id c.replies (n + 1) (flush (request (close_blob handle) c)) k d
        (omega (arith, h, length-append c.requests (close_blob handle ∷ []))) refl q

  send_segment-Settles :
      (handle : ℤ) (chunk : List ℕ) (next : ℕ → Channel E → Outcome E (List ℕ)) (k d : ℕ)
      → Continues k d next
      → Continues k d (λ n c. send_segment handle chunk n c next)
  unfolding send_segment request flush take_response
  send_segment-Settles handle chunk next k d go n c h q =
      let r = batch_segments handle (frame chunk) in
      let l = length-append c.requests (r ∷ []) in
      elim (Bool-cases (leb pipeline_depth (n + 1))) [
        | inr t ↦ rw (t, send_segment) (go (n + 1) (request r c) (omega (arith, h, l)) q)
        | inl t ↦
            let u = read_response_clear (flush (request r c)) q.1 in
            elim (reply-cases c.replies) [
              | inl e ↦
                  let z = ap length e in
                  rw (t, u, e, send_segment) (z, refl, ground (arith, h, q.0, q.1, z, l))
              | inr (inl (x, rest, e)) ↦
                  let z = ap length e in
                  let c' : Channel E = record {
                    requests = c.requests ++ r ∷ [];
                    flushed = length (c.requests ++ r ∷ []);
                    deferred = c.deferred;
                    replies = rest;
                  } in
                  rw (t, u, e, send_segment)
                    (give_up_stream-Settles handle x k d n c' (omega (arith, h, l, z)) q)
              | inr (inr (a, i, bytes, rest, e)) ↦
                  let z = ap length e in
                  let c' : Channel E = record {
                    requests = c.requests ++ r ∷ [];
                    flushed = length (c.requests ++ r ∷ []);
                    deferred = c.deferred;
                    replies = rest;
                  } in
                  rw (t, u, e, send_segment) (go n c' (omega (arith, h, l, z)) q)
            ]
      ]

  send_full-Settles :
      (fuel : ℕ) (handle : ℤ) (size : ℕ) (pending : List (List ℕ)) (pending_bytes : ℕ)
      (next : List (List ℕ) → ℕ → ℕ → Channel E → Outcome E (List ℕ)) (k d : ℕ)
      → ((p : List (List ℕ)) (b : ℕ) → Continues k d (next p b))
      → Continues k d (λ n c. send_full fuel handle size pending pending_bytes n c next)
  unfolding send_full
  send_full-Settles zero handle size pending pending_bytes next k d go n c h q =
      go pending pending_bytes n c h q
  send_full-Settles (suc fuel) handle size pending pending_bytes next k d go n c h q =
      elim (Bool-cases (leb size pending_bytes)) [
        | inr t ↦ rw (t, send_full) (go pending pending_bytes n c h q)
        | inl t ↦
            let rest = drop size (concat pending) in
            rw (t, send_full)
              (send_segment-Settles handle (take size (concat pending)) _ k d
                (send_full-Settles fuel handle size (if length rest == 0 then [] else rest ∷ [])
                  (length rest) next k d go)
                n c h q)
      ]

  bytes-cases : (o : E ⊎ List ℕ) → ((e : E) × (o ≡ inl e)) ⊎ ((bytes : List ℕ) × (o ≡ inr bytes))
  bytes-cases (inl e) = inl (e, refl)
  bytes-cases (inr bytes) = inr (bytes, refl)

  module _ (encode_text : List ℕ → E ⊎ List ℕ) (not_bytes : E) where
    stream_rounds-Settles :
        (handle : ℤ) (id : List ℕ) (size : ℕ) (source : List (Pull E)) (pending : List (List ℕ))
        (pending_bytes k d : ℕ)
        → Continues k d
            (stream_rounds encode_text not_bytes handle id size source pending pending_bytes)
    unfolding stream_rounds
    stream_rounds-Settles handle id size [] pending pending_bytes k d n c h q =
        elim (Bool-cases (pending_bytes == 0)) [
          | inl t ↦ rw (t, stream_rounds) (finish_stream-Settles handle id k d n c h q)
          | inr t ↦
              rw (t, stream_rounds)
                (send_segment-Settles handle (concat pending) (finish_stream handle id) k d
                  (finish_stream-Settles handle id k d) n c h q)
        ]
    stream_rounds-Settles handle id size (raw ∷ source) pending pending_bytes k d n c h q =
        elim (bytes-cases (bytes_of encode_text not_bytes raw)) [
          | inl (e, t) ↦ rw (t, stream_rounds) (give_up_stream-Settles handle e k d n c h q)
          | inr (bytes, t) ↦ elim (Bool-cases (length bytes == 0)) [
            | inl u ↦
                rw (t, u, stream_rounds)
                  (stream_rounds-Settles handle id size source pending pending_bytes k d n c h q)
            | inr u ↦
                rw (t, u, stream_rounds)
                  (send_full-Settles (pending_bytes + length bytes) handle size
                    (pending ++ bytes ∷ []) (pending_bytes + length bytes)
                    (stream_rounds encode_text not_bytes handle id size source) k d
                    (λ p b. stream_rounds-Settles handle id size source p b k d) n c h q)
          ]
        ]

    -- Whatever the source gives or throws and whatever the server replies to writing it, if the requests
    -- that were deferred before went well: when the call returns or throws, the replies that it took are
    -- those to these requests and to its own, but for those that it leaves deferred, and while it
    -- waits, all that it wrote is flushed and a reply is owed.
    pub write_blob_stream-Settles :
        (tx : ℕ) (source : List (Pull E)) (chunk_size : ℕ) (c : Channel E)
        → DeferredWell c.deferred c.replies
        → Settles
            (length c.requests + length c.replies)
            c.deferred
            (write_blob_stream encode_text not_bytes tx source chunk_size c)
    unfolding write_blob_stream flush request
    write_blob_stream-Settles tx source chunk_size c w =
        response-Settles (flush (request (create_blob tx) c))
          (λ r' c'.
            stream_rounds encode_text not_bytes r'.0 r'.1 (segment_size chunk_size) source [] 0 0
              c')
          (length c.requests + length c.replies)
          (omega (arith, length-append c.requests (create_blob tx ∷ []))) refl w
          (λ r' rest h.
            stream_rounds-Settles r'.0 r'.1 (segment_size chunk_size) source [] 0
              (length (c.requests ++ create_blob tx ∷ []) + length rest) 0 0 _ (omega arith)
              (refl, refl))

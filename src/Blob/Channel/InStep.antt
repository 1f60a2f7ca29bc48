-- ===== src/Blob/Channel/InStep.antt =====
-- Whatever the server replies to its requests, a call takes the replies to them and no others.
use mathlib.Core.Path.{subst₂}
use fast_firebird.Base.{
  ℕ, zero, suc, ◌+◌, ◌≡◌, refl, ap, sym, subst, false, List, [], ◌∷◌, ◌++◌, leb, length,
  length-append, ℤ, arith, Bool-cases, inl, inr, if◌then◌else◌,
}
use fast_firebird.Blob.Channel.{
  Request, open_blob, get_segment, create_blob, close_blob, batch_segments, Channel, Outcome, done,
  threw, waiting, request, flush, close_deferred, read_response, take_response, ◌then◌, open_blob_,
  buffer_length,
}
use fast_firebird.Blob.Channel.Reads.{
  pipeline_depth, requests_for, read_rounds, read_blob, read_blob_window,
}
use fast_firebird.Blob.Channel.Writes.{segment_size, chunks_of, frame, write_rounds, write_blob}
use fast_firebird.Blob.Channel.Drained.{
  Settles, drain-Settles, close_counts, read_rounds-Settles, window_rounds-Settles,
  finish_rounds-Settles, reply-cases, response-Settles, Clear, DeferredWell, read_response_clear,
  skip-cases, Settles-later,
}

module _ {E : Type 0} where
  requests_for_counts :
      (n : ℕ) (r : Request) (c : Channel E)
      → (length (requests_for n r c).requests ≡ length c.requests + n)
        × ((requests_for n r c).replies ≡ c.replies)
        × ((requests_for n r c).deferred ≡ c.deferred)
  unfolding requests_for request
  requests_for_counts zero r c = (omega arith, refl, refl)
  requests_for_counts (suc n) r c =
      let k = requests_for_counts n r (request r c) in
      (omega (arith, k.0, length-append c.requests (r ∷ [])), k.1, k.2)

  write_rounds-Settles :
      (handle : ℤ) (id : List ℕ) (chunks : List (List ℕ)) (n : ℕ) (c : Channel E) (k d : ℕ)
      → k + n ≡ length c.requests + length c.replies
      → Clear d c
      → Settles k d (write_rounds handle id chunks n c)
  unfolding write_rounds request flush take_response
  write_rounds-Settles handle id [] n c k d h q =
      finish_rounds-Settles id c.replies (n + 1) (flush (request (close_blob handle) c)) k d
        (omega (arith, h, length-append c.requests (close_blob handle ∷ []))) refl q
  write_rounds-Settles handle id (chunk ∷ chunks) n c k d h q =
      let r = batch_segments handle (frame chunk) in
      let l = length-append c.requests (r ∷ []) in
      elim (Bool-cases (leb pipeline_depth (n + 1))) [
        | inr t ↦
            rw (t, write_rounds)
              (write_rounds-Settles handle id chunks (n + 1) (request r c) k d (omega (arith, h, l))
                q)
        | inl t ↦
            let u = read_response_clear (flush (request r c)) q.1 in
            elim (reply-cases c.replies) [
              | inl e ↦
                  let z = ap length e in
                  rw (t, u, e, write_rounds) (z, refl, ground (arith, h, q.0, q.1, z, l))
              | inr (inl (x, rest, e)) ↦
                  let z = ap length e in
                  let c' : Channel E = record {
                    requests = c.requests ++ r ∷ [];
                    flushed = length (c.requests ++ r ∷ []);
                    deferred = c.deferred;
                    replies = rest;
                  } in
                  rw (t, u, e, write_rounds)
                    (drain-Settles n k d c' (λ d'. threw x (close_deferred handle d'))
                      (omega (arith, h, l, z)) refl q
                      (λ d' h' f' q'. close_counts handle k d d' h' q'))
              | inr (inr (a, i, bytes, rest, e)) ↦
                  let z = ap length e in
                  let c' : Channel E = record {
                    requests = c.requests ++ r ∷ [];
                    flushed = length (c.requests ++ r ∷ []);
                    deferred = c.deferred;
                    replies = rest;
                  } in
                  rw (t, u, e, write_rounds)
                    (write_rounds-Settles handle id chunks n c' k d (omega (arith, h, l, z)) q)
            ]
      ]

  abbrev after_open : ℕ → ℤ → Channel E → Outcome E (List ℕ)
  after_open size handle c =
      read_rounds handle size c.replies pipeline_depth false []
        (flush (requests_for pipeline_depth (get_segment handle size) c))

  open_assoc :
      (o : Outcome E (ℤ × List ℕ × List ℕ)) (g : ℤ → Channel E → Outcome E (List ℕ))
      → ((o then λ r c. done r.0 c) then g) ≡ (o then λ r c. g r.0 c)
  open_assoc (done r c) g = refl
  open_assoc (threw e c) g = refl
  open_assoc (waiting c) g = refl

  -- The response to the opening, and what is read behind it.
  open_step :
      (tx : ℕ) (id : List ℕ) (chunk_size : ℕ) (c : Channel E) (k d : ℕ)
      → Settles k d (
          read_response (flush (request (open_blob tx id) c)) then λ r c'.
          after_open (buffer_length chunk_size) r.0 c')
      → Settles k d (read_blob tx id chunk_size c)
  unfolding read_blob open_blob_
  open_step tx id chunk_size c k d h =
      subst (λ o. Settles k d o)
        (sym (
          open_assoc (read_response (flush (request (open_blob tx id) c)))
            (after_open (buffer_length chunk_size))))
        h

  -- Whatever the server replies to reading a blob, if the requests that were deferred before went well:
  -- when the call returns or throws, the replies that it took are those to these requests and to
  -- its own, but for those that it leaves deferred, and while it waits, all that it wrote is flushed
  -- and a reply is owed.
  pub read_blob-Settles :
      (tx : ℕ) (id : List ℕ) (chunk_size : ℕ) (c : Channel E)
      → DeferredWell c.deferred c.replies
      → Settles (length c.requests + length c.replies) c.deferred (read_blob tx id chunk_size c)
  unfolding flush request
  read_blob-Settles tx id chunk_size c w =
      let r = open_blob tx id in
      let size = buffer_length chunk_size in
      let k = length c.requests + length c.replies in
      open_step tx id chunk_size c k c.deferred (
        response-Settles (flush (request r c)) (λ r' c'. after_open size r'.0 c') k
          (omega (arith, length-append c.requests (r ∷ []))) refl w
          (λ r' rest h.
            let c' : Channel E = record {
              requests = c.requests ++ r ∷ [];
              flushed = length (c.requests ++ r ∷ []);
              deferred = 0;
              replies = rest;
            } in
            let s = get_segment r'.0 size in
            let l = requests_for_counts pipeline_depth s c' in
            read_rounds-Settles r'.0 size rest pipeline_depth false []
              (flush (requests_for pipeline_depth s c'))
              (length (c.requests ++ r ∷ []) + length rest) 0 (omega (arith, l.0)) refl
              (refl, l.2)))

  -- The same of a window of requests on an open blob.
  pub read_blob_window-Settles :
      (handle : ℤ) (chunk_size count : ℕ) (c : Channel E)
      → DeferredWell c.deferred c.replies
      → Settles
          (length c.requests + length c.replies)
          c.deferred
          (read_blob_window handle chunk_size count c)
  unfolding read_blob_window flush
  read_blob_window-Settles handle chunk_size zero c w = refl
  read_blob_window-Settles handle chunk_size (suc n) c w =
      let r = get_segment handle (buffer_length chunk_size) in
      let l = requests_for_counts (suc n) r c in
      let c' : Channel E = flush (requests_for (suc n) r c) in
      let w' = subst₂ (λ m rs. DeferredWell m rs) (sym l.2) (sym l.1) w in
      let z = ap length l.1 in
      elim (skip-cases c'.deferred c'.replies c' w') [
        | inl (m, e, k, g) ↦ rw (e, read_blob_window) (refl, refl, omega (arith, k, g, l.0, z, l.2))
        | inr (rest, e, k) ↦
            let c'' : Channel E = record c' { replies = rest; deferred = 0 } in
            rw (e, read_blob_window)
              (Settles-later (length c.requests + length c.replies)
                (length c.requests + length rest) c.deferred _ (omega (arith, k, l.0, z, l.2))
                (window_rounds-Settles rest (suc n) false [] c'' (length c.requests + length rest) 0
                  (omega (arith, l.0)) refl (refl, refl)))
      ]

  -- And of writing a blob, whose segments are in flight before the first reply is taken.
  pub write_blob-Settles :
      (tx : ℕ) (bytes : List ℕ) (chunk_size : ℕ) (c : Channel E)
      → DeferredWell c.deferred c.replies
      → Settles (length c.requests + length c.replies) c.deferred (write_blob tx bytes chunk_size c)
  unfolding write_blob flush request
  write_blob-Settles tx bytes chunk_size c w =
      let r = create_blob tx in
      response-Settles (flush (request r c))
        (λ r' c'. write_rounds r'.0 r'.1 (chunks_of (segment_size chunk_size) bytes) 0 c')
        (length c.requests + length c.replies) (omega (arith, length-append c.requests (r ∷ [])))
        refl w
        (λ r' rest h.
          write_rounds-Settles r'.0 r'.1 (chunks_of (segment_size chunk_size) bytes) 0
            (record {
              requests = c.requests ++ r ∷ [];
              flushed = length (c.requests ++ r ∷ []);
              deferred = 0;
              replies = rest;
            })
            (length (c.requests ++ r ∷ []) + length rest) 0 (omega arith) (refl, refl))

-- ===== src/Blob/Channel/Streams/Delivers.antt =====
-- Sending segments behind one another when their requests are answered.
use fast_firebird.Base.{
  ℕ, zero, suc, ◌+◌, ◌<◌, ◌≤◌, ◌≡◌, refl, ap, sym, ◌∙◌, subst, List, [], ◌∷◌, ◌++◌, ◌==◌, leb,
  if◌then◌else◌, length, take, drop, concat, ℤ, length-drop, append_assoc, Bool-cases, inl, inr,
  arith,
}
use fast_firebird.Blob.Channel.{
  batch_segments, close_blob, Reply, Channel, Outcome, done, request, flush,
}
use fast_firebird.Blob.Channel.Reads.{pipeline_depth}
use fast_firebird.Blob.Channel.Writes.{frame, finish_rounds}
use fast_firebird.Blob.Channel.Reading.{Response, answered, read_response-answered}
use fast_firebird.Blob.Channel.Chunks.{batches, Sent, finish_rounds-answered}
use fast_firebird.Blob.Channel.Streams.{send_segment, send_full, finish_stream}
use fast_firebird.Blob.Channel.Streams.Segmented.{segments_of, segments_of_full, concat_rest}

module _ {E : Type 0} where
  -- A continuation that sends these segments and the close, and returns the id.
  abbrev pub Delivers :
      ℤ → List ℕ → List (Reply E) → List (List ℕ) → (ℕ → Channel E → Outcome E (List ℕ)) → Type 0
  Delivers handle id rest segments next =
      (n : ℕ) (answers : List Response) (c : Channel E)
      → c.replies ≡ answered answers rest
      → length answers ≡ n + length segments + 1
      → c.deferred ≡ 0
      → Sent id (c.requests ++ (batches handle segments ++ close_blob handle ∷ [])) rest (next n c)

  pub finish_stream-Delivers :
      (handle : ℤ) (id : List ℕ) (rest : List (Reply E))
      → Delivers handle id rest [] (finish_stream handle id)
  unfolding finish_stream flush request
  finish_stream-Delivers handle id rest n answers c r l v =
      let c' : Channel E = flush (request (close_blob handle) c) in
      let z = finish_rounds-answered id answers rest c' in
      let m : length answers ≡ n + 1 = omega (arith, l) in
      (
        record c' { replies = rest },
        subst (λ t. finish_rounds id t (n + 1) c' ≡ done id (record c' { replies = rest })) (sym r)
            (subst
              (λ t.
                finish_rounds id (answered answers rest) t c'
                ≡ done id (record c' { replies = rest }))
              m z),
        refl,
        refl,
        refl,
      )

  pub send_segment-Delivers :
      (handle : ℤ) (id : List ℕ) (rest : List (Reply E)) (chunk : List ℕ) (segments : List (List ℕ))
      (next : ℕ → Channel E → Outcome E (List ℕ))
      → Delivers handle id rest segments next
      → Delivers handle id rest (chunk ∷ segments) (λ n c. send_segment handle chunk n c next)
  unfolding send_segment request flush
  send_segment-Delivers handle id rest chunk segments next go n [] c r l v =
      absurd (omega (arith, l))
  send_segment-Delivers handle id rest chunk segments next go n (a ∷ answers) c r l v =
      let b = batch_segments handle (frame chunk) in
      let q =
        append_assoc c.requests (b ∷ []) (batches handle segments ++ close_blob handle ∷ []) in
      elim (Bool-cases (leb pipeline_depth (n + 1))) [
        | inr t ↦
            rw (t, send_segment)
              (subst (λ x. Sent id x rest (next (n + 1) (request b c))) q
                (go (n + 1) (a ∷ answers) (request b c) r (omega (arith, l)) v))
        | inl t ↦
            let c' : Channel E = record {
              requests = c.requests ++ b ∷ [];
              flushed = length (c.requests ++ b ∷ []);
              deferred = 0;
              replies = answered answers rest;
            } in
            rw
              (
                t,
                read_response-answered [] a (answered answers rest) (flush (request b c)) (sym v) r,
                send_segment,
              )
              (subst (λ x. Sent id x rest (next n c')) q
                (go n answers c' refl (omega (arith, l)) refl))
      ]

  pub send_full-Delivers :
      (handle : ℤ) (id : List ℕ) (rest : List (Reply E)) (size : ℕ) (later : List ℕ)
      (next : List (List ℕ) → ℕ → ℕ → Channel E → Outcome E (List ℕ)) (fuel : ℕ)
      (pending : List (List ℕ)) (pending_bytes : ℕ)
      → 0 < size
      → pending_bytes ≡ length (concat pending)
      → pending_bytes ≤ fuel
      → ((p : List (List ℕ)) (b : ℕ)
          → b ≡ length (concat p)
          → b < size
          → Delivers handle id rest (segments_of size (concat p ++ later)) (next p b))
      → Delivers handle id rest
          (segments_of size (concat pending ++ later))
          (λ n c. send_full fuel handle size pending pending_bytes n c next)
  unfolding send_full
  send_full-Delivers handle id rest size later next zero pending pending_bytes p e f go n answers c
        r l v =
      go pending pending_bytes e (omega (arith, p, f)) n answers c r l v
  send_full-Delivers handle id rest size later next (suc fuel) pending pending_bytes p e f go n
        answers c r l v =
      elim (Bool-cases (leb size pending_bytes)) [
        | inr t ↦
            rw (t, send_full) (go pending pending_bytes e (ground (arith, t)) n answers c r l v)
        | inl t ↦
            let all = concat pending in
            let left = drop size all in
            let h : size ≤ length all = ground (arith, t, e) in
            let s = segments_of_full size all later p h in
            let again = if length left == 0 then [] else left ∷ [] in
            let go' =
              send_full-Delivers handle id rest size later next fuel again (length left) p
                (ap length (sym (concat_rest left)))
                (omega (arith, length-drop size all, e, f, p, h)) go in
            let go'' =
              subst
                (λ x.
                  Delivers handle id rest (segments_of size (x ++ later))
                    (λ n c. send_full fuel handle size again (length left) n c next))
                (concat_rest left) go' in
            rw (t, send_full)
              (subst
                (λ x. Sent id (c.requests ++ (batches handle x ++ close_blob handle ∷ [])) rest (
                  send_segment handle (take size all) n c
                    (λ n c. send_full fuel handle size again (length left) n c next)))
                (sym s)
                (send_segment-Delivers handle id rest (take size all)
                  (segments_of size (left ++ later)) _ go'' n answers c r
                  (l ∙ ap (λ x. n + length x + 1) s) v))
      ]

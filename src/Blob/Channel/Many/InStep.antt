-- ===== src/Blob/Channel/Many/InStep.antt =====
-- Reading several blobs takes the replies to its own requests, and waits for those that are sent only.
use mathlib.Core.Path.{subst₂}
use fast_firebird.Base.{
  sym, ◌≤◌, ◌-◌, ℕ, ◌+◌, ◌≡◌, ◌⊎◌, refl, ap, inl, inr, List, [], ◌∷◌, length, arith,
}
use fast_firebird.Blob.Channel.{
  Reply, response, failure, Channel, Outcome, done, threw, waiting, buffer_length, segment,
}
use fast_firebird.Blob.Channel.Reads.{read_blob}
use fast_firebird.Blob.Channel.Many.{
  Pending, opening, segment_of, closing, Batch, ready, take_reply,
}
use fast_firebird.Blob.Channel.Many.Rounds.{
  shifted, batch_rounds, start_rounds, new_batch, read_blobs,
}
use fast_firebird.Blob.Channel.Drained.{Settles, DeferredWell, skip-cases}
use fast_firebird.Blob.Channel.InStep.{read_blob-Settles}
use fast_firebird.Blob.Channel.Many.Accounted.{
  Accounted, ready-Accounted, ready_empty, got_segment-Accounted,
}
use fast_firebird.Blob.Channel.Many.GivenUp.{Answers, give_up_batch-Answers}

pending-cases :
    (ps : List Pending) → (ps ≡ []) ⊎ ((p : Pending) × (rest : List Pending) × (ps ≡ p ∷ rest))
pending-cases [] = inl refl
pending-cases (p ∷ rest) = inr (p, rest, refl)

module _ {E : Type 0} where
  take_reply-cases :
      (p : Pending) (r : Reply E) (k d : ℕ) (rs : List (Reply E)) (b : Batch E)
      → Accounted k d rs b
      → ((e : E) × (take_reply p r b ≡ inl e))
        ⊎ ((b' : Batch E) × (take_reply p r b ≡ inr b') × Accounted k d rs b')
  unfolding take_reply
  take_reply-cases (opening i) (response h id bytes) k d rs b a = inr (_, refl, a)
  take_reply-cases (segment_of i) (response h id bytes) k d rs b a =
      inr (_, refl, got_segment-Accounted i (segment (h, id, bytes)) k d rs b a)
  take_reply-cases closing (response h id bytes) k d rs b a = inr (b, refl, a)
  take_reply-cases closing (failure e) k d rs b a = inr (b, refl, a)
  take_reply-cases (opening i) (failure e) k d rs b a = inl (e, refl)
  take_reply-cases (segment_of i) (failure e) k d rs b a = inl (e, refl)

  batch_rounds-Answers :
      (tx : ℕ) (ids : List (List ℕ)) (size k : ℕ) (replies : List (Reply E)) (b : Batch E)
      → Accounted k 0 replies b
      → (b.pending ≡ [] → length b.unflushed ≡ 0)
      → Answers k 0 (batch_rounds tx ids size replies b)
  unfolding batch_rounds
  batch_rounds-Answers tx ids size k [] b a u = elim (pending-cases b.pending) [
    | inl e ↦
        let z = ap length e in let v = u e in rw (e, batch_rounds) (omega (arith, z, v, a.0, a.2))
    | inr (p, rest, e) ↦
        let z = ap length e in
        let w = a.1 (omega (arith, z)) in rw (e, batch_rounds) (refl, omega (arith, z, w, a.0, a.2))
  ]
  batch_rounds-Answers tx ids size k (r ∷ replies) b a u = elim (pending-cases b.pending) [
    | inl e ↦
        let z = ap length e in let v = u e in rw (e, batch_rounds) (omega (arith, z, v, a.0, a.2))
    | inr (p, rest, e) ↦
        let z = ap length e in
        let w = a.1 (omega (arith, z)) in
        let s = shifted rest replies b in
        let c : Accounted k 0 replies s = (omega (arith, a.0, z), λ h. w, a.2, refl) in
        elim (take_reply-cases p r k 0 replies s c) [
          | inl (x, t) ↦ rw (e, t, batch_rounds) (give_up_batch-Answers x k replies s c)
          | inr (b', t, c') ↦
              rw (e, t, batch_rounds)
                (batch_rounds-Answers tx ids size k replies (ready tx ids size b')
                  (ready-Accounted tx ids size k 0 replies b' c') (ready_empty tx ids size b'))
        ]
  ]

  Answers-later :
      {A : Type 0} (k k' d : ℕ) (o : Outcome E A) → k ≡ k' + d → Answers k' 0 o → Answers k d o
  Answers-later k k' d (done a c) e h = omega (arith, e, h)
  Answers-later k k' d (threw x c) e h = omega (arith, e, h)
  Answers-later k k' d (waiting c) e h = (h.0, omega (arith, e, h.1))

  start_rounds-Answers :
      (tx : ℕ) (ids : List (List ℕ)) (size k d : ℕ) (rs : List (Reply E)) (b : Batch E)
      → DeferredWell d rs
      → length rs ≤ k
      → Accounted k d rs b
      → (b.pending ≡ [] → length b.unflushed ≡ 0)
      → Answers k d (start_rounds tx ids size b)
  unfolding start_rounds
  start_rounds-Answers tx ids size k d rs b w g a u = elim (pending-cases b.pending) [
    | inl e ↦
        let z = ap length e in
        let v = u e in
        let y = ap length a.3 in rw (e, start_rounds) (omega (arith, z, v, y, a.0, a.2))
    | inr (p, rest, e) ↦
        let z = ap length e in
        let f = a.1 (omega (arith, z)) in
        let y = ap length a.3 in
        elim (skip-cases b.channel.deferred b.channel.replies b.channel
          (subst₂ (λ n t. DeferredWell n t) (sym a.2) (sym a.3) w)) [
            | inl (m, s, l, o) ↦
                rw (e, s, start_rounds) (refl, omega (arith, z, f, y, l, o, a.0, a.2))
            | inr (later, s, l) ↦
                let b' : Batch E = record b {
                  channel = record b.channel { replies = later; deferred = 0 };
                } in
                let k' : k ≡ k - d + d = omega (arith, g, y, l, a.2) in
                rw (e, s, start_rounds)
                  (Answers-later k (k - d) d _ k' (
                    batch_rounds-Answers tx ids size (k - d) later b'
                      (omega (arith, a.0, a.2, y, l, k'), a.1, refl, refl) u))
          ]
  ]

  one_blob :
      (k d : ℕ) (o : Outcome E (List ℕ))
      → Settles k d o
      → Answers k d (elim o [
        | done bytes c ↦ done (bytes ∷ []) c
        | threw e c ↦ threw e c
        | waiting c ↦ waiting c
      ])
  one_blob k d (done bytes c) h = h
  one_blob k d (threw e c) h = h
  one_blob k d (waiting c) h = (h.0, omega (arith, h.1, h.2))

  -- Whatever the server replies to reading several blobs, if the requests that were deferred before went
  -- well: when the call returns or throws, the replies that it took are those to these requests and
  -- to its own, but for those that it leaves deferred, and while it waits, a reply is owed to a
  -- request that is flushed.
  pub read_blobs-Answers :
      (tx : ℕ) (ids : List (List ℕ)) (chunk_size : ℕ) (c : Channel E)
      → DeferredWell c.deferred c.replies
      → Answers (length c.requests + length c.replies) c.deferred (read_blobs tx ids chunk_size c)
  unfolding read_blobs
  read_blobs-Answers tx [] chunk_size c w = refl
  read_blobs-Answers tx (id ∷ []) chunk_size c w =
      one_blob (length c.requests + length c.replies) c.deferred (read_blob tx id chunk_size c)
        (read_blob-Settles tx id chunk_size c w)
  read_blobs-Answers tx (id ∷ id' ∷ ids) chunk_size c w =
      let all = id ∷ id' ∷ ids in
      let size = buffer_length chunk_size in
      let b = new_batch all c in
      let k = length c.requests + length c.replies in
      start_rounds-Answers tx all size k c.deferred c.replies (ready tx all size b) w (omega arith)
        (ready-Accounted tx all size k c.deferred c.replies b
          (omega arith, (λ h. absurd (omega (arith, h))), refl, refl))
        (ready_empty tx all size b)

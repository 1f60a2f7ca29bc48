-- ===== src/Blob/Channel/Many/GivenUp.antt =====
-- The catch clause of readBlobs takes the replies to what is in flight.
use fast_firebird.Base.{
  zero, ℕ, suc, ◌+◌, ◌<◌, ◌≡◌, refl, ap, inl, inr, List, [], ◌∷◌, ◌==◌, length, ℤ, length-append,
  Bool-cases, arith,
}
use fast_firebird.Blob.Channel.{
  close_blob, Reply, Channel, Outcome, done, threw, waiting, request, flush, close_deferred, drain,
  take_response,
}
use fast_firebird.Blob.Channel.Many.{BlobState, Batch, flush_now}
use fast_firebird.Blob.Channel.Many.Rounds.{close_all, give_up_batch}
use fast_firebird.Blob.Channel.Drained.{reply-cases, read_response_clear}
use fast_firebird.Blob.Channel.Many.Accounted.{handle-cases, Accounted, flush_now-Accounted}

-- A call that starts with k requests and replies and d requests deferred. When it returns or throws,
-- the replies that it took are those to the d requests and to its own, but for those that it leaves
-- deferred; when it waits, it has taken all there are, and a reply is owed to a request that is flushed.
abbrev pub Answers : {E A : Type 0} → ℕ → ℕ → Outcome E A → Type 0
Answers k d (done a c) = length c.requests + length c.replies + d ≡ k + c.deferred
Answers k d (threw e c) = length c.requests + length c.replies + d ≡ k + c.deferred
Answers k d (waiting c) = (length c.replies ≡ 0) × (k + c.deferred < c.flushed + d)

module _ {E : Type 0} where
  close_step :
      (handle : ℤ) (k d : ℕ) (c : Channel E)
      → length c.requests + length c.replies + d ≡ k + c.deferred
      → let c' = close_deferred handle c in
        length c'.requests + length c'.replies + d ≡ k + c'.deferred
  unfolding close_deferred request
  close_step handle k d c h = omega (arith, h, length-append c.requests (close_blob handle ∷ []))

  flush_now_lem : (b : Batch E) → length (flush_now b).unflushed ≡ 0
  unfolding flush_now flush
  flush_now_lem b = elim (Bool-cases (length b.unflushed == 0)) [
    | inl t ↦ rw (t, flush_now) (ground (arith, t))
    | inr t ↦ rw (t, flush_now) refl
  ]

  close_all_counts :
      (states : List BlobState) (k d : ℕ) (c : Channel E)
      → length c.requests + length c.replies + d ≡ k + c.deferred
      → let c' = close_all states c in length c'.requests + length c'.replies + d ≡ k + c'.deferred
  unfolding close_all
  close_all_counts [] k d c h = h
  close_all_counts (s ∷ states) k d c h = elim (handle-cases s.handle) [
    | inl u ↦ rw (u, close_all) (close_all_counts states k d c h)
    | inr (handle, u) ↦ elim (Bool-cases s.eof) [
      | inl t ↦ rw (u, t, close_all) (close_all_counts states k d c h)
      | inr t ↦
          rw (u, t, close_all)
            (close_all_counts states k d (close_deferred handle c) (close_step handle k d c h))
    ]
  ]

  drain-Answers :
      (n k : ℕ) (c : Channel E) (then_ : Channel E → Outcome E (List (List ℕ)))
      → k + n ≡ length c.requests + length c.replies
      → (0 < n → c.flushed ≡ length c.requests)
      → c.deferred ≡ 0
      → ((c' : Channel E)
          → k ≡ length c'.requests + length c'.replies
          → c'.deferred ≡ 0
          → Answers k 0 (then_ c'))
      → Answers k 0 (drain n c then_)
  unfolding drain take_response
  drain-Answers zero k c then_ h f q go = go c (omega (arith, h)) q
  drain-Answers (suc n) k c then_ h f q go =
      let u = read_response_clear c q in
      let w = f (omega arith) in
      elim (reply-cases c.replies) [
        | inl e ↦ let z = ap length e in rw (u, e, drain) (z, omega (arith, h, q, w, z))
        | inr (inl (x, rest, e)) ↦
            let z = ap length e in
            rw (u, e, drain)
              (drain-Answers n k (record c { replies = rest }) then_ (omega (arith, h, z)) (λ _. w)
                q go)
        | inr (inr (a, i, bytes, rest, e)) ↦
            let z = ap length e in
            rw (u, e, drain)
              (drain-Answers n k (record c { replies = rest }) then_ (omega (arith, h, z)) (λ _. w)
                q go)
      ]

  pub give_up_batch-Answers :
      (e : E) (k : ℕ) (rs : List (Reply E)) (b : Batch E)
      → Accounted k 0 rs b
      → Answers k 0 (give_up_batch e b)
  unfolding give_up_batch
  give_up_batch-Answers e k rs b a =
      let b' = flush_now b in
      let a' = flush_now-Accounted k 0 rs b a in
      let u = flush_now_lem b in
      let z = ap length a'.3 in
      drain-Answers (length b'.pending) k b'.channel (λ c. threw e (close_all b'.blobs c))
        (omega (arith, a'.0, u, z)) (λ h. let w = a'.1 h in omega (arith, w, u)) a'.2
        (λ c h q. close_all_counts b'.blobs k 0 c (omega (arith, h, q)))

-- ===== src/Blob/Channel/Drained.antt =====
-- The replies that a call takes are those to its requests: the connection stays in step.
use fast_firebird.Base.{
  ℕ, zero, suc, ◌+◌, ◌<◌, ◌≡◌, ◌⊎◌, refl, ap, Bool, true, false, List, [], ◌∷◌, length,
  length-append, ℤ, arith, Bool-cases, inl, inr, if◌then◌else◌,
}
use fast_firebird.Blob.Channel.{
  get_segment, close_blob, Reply, response, failure, Channel, Outcome, done, threw, waiting,
  request, flush, close_deferred, read_response, ◌then◌, segment, drain, skip_deferred,
  take_response,
}
use fast_firebird.Blob.Channel.Reads.{with_part, read_rounds, window_rounds}
use fast_firebird.Blob.Channel.Writes.{finish_rounds}

-- A call that starts with d requests deferred, and with k requests and replies beyond those in flight.
-- When it returns or throws, the replies that it took are those to the d requests, to the requests in
-- flight and to its own, but for those that it leaves deferred; when it waits, it has taken all
-- there are, flushed all it wrote, and a reply is owed.
abbrev pub Settles : {E A : Type 0} → ℕ → ℕ → Outcome E A → Type 0
Settles k d (done a c) = length c.requests + length c.replies + d ≡ k + c.deferred
Settles k d (threw e c) = length c.requests + length c.replies + d ≡ k + c.deferred
Settles k d (waiting c) =
    (length c.replies ≡ 0)
    × (c.flushed ≡ length c.requests)
    × (k + c.deferred < length c.requests + d)

module _ {E : Type 0} where
  -- Nothing is deferred.
  abbrev pub Clear : ℕ → Channel E → Type 0
  Clear d c = (d ≡ 0) × (c.deferred ≡ 0)

  -- The requests deferred before, to which the replies come first, went well as far as there are replies.
  abbrev pub DeferredWell : ℕ → List (Reply E) → Type 0
  DeferredWell zero replies = Unit {0}
  DeferredWell (suc n) [] = Unit {0}
  DeferredWell (suc n) (response handle id bytes ∷ replies) = DeferredWell n replies
  DeferredWell (suc n) (failure e ∷ replies) = ⊥

  pub reply-cases :
      (rs : List (Reply E))
      → (rs ≡ [])
        ⊎ ((e : E) × (rest : List (Reply E)) × (rs ≡ failure e ∷ rest))
        ⊎ ((h : ℤ) × (id : List ℕ) × (bytes : List ℕ) × (rest : List (Reply E)) × (rs
              ≡ response h id bytes ∷ rest))
  reply-cases [] = inl refl
  reply-cases (failure e ∷ rest) = inr (inl (e, rest, refl))
  reply-cases (response h id bytes ∷ rest) = inr (inr (h, id, bytes, rest, refl))

  -- With nothing deferred, the next response is the await's own.
  pub read_response_clear : (c : Channel E) → c.deferred ≡ 0 → read_response c ≡ take_response c
  unfolding read_response skip_deferred
  read_response_clear c q = rw (q, skip_deferred) refl

  pub drain-Settles :
      {A : Type 0} (n k d : ℕ) (c : Channel E) (then_ : Channel E → Outcome E A)
      → k + n ≡ length c.requests + length c.replies
      → c.flushed ≡ length c.requests
      → Clear d c
      → ((c' : Channel E)
          → k ≡ length c'.requests + length c'.replies
          → c'.flushed ≡ length c'.requests
          → Clear d c'
          → Settles k d (then_ c'))
      → Settles k d (drain n c then_)
  unfolding drain take_response
  drain-Settles zero k d c then_ h f q go = go c (omega (arith, h)) f q
  drain-Settles (suc n) k d c then_ h f q go =
      let u = read_response_clear c q.1 in
      elim (reply-cases c.replies) [
        | inl e ↦ let z = ap length e in rw (u, e, drain) (z, f, omega (arith, h, q.0, q.1, z))
        | inr (inl (x, rest, e)) ↦
            let z = ap length e in
            rw (u, e, drain)
              (drain-Settles n k d (record c { replies = rest }) then_ (omega (arith, h, z)) f q go)
        | inr (inr (a, i, bytes, rest, e)) ↦
            let z = ap length e in
            rw (u, e, drain)
              (drain-Settles n k d (record c { replies = rest }) then_ (omega (arith, h, z)) f q go)
      ]

  pub close_counts :
      (handle : ℤ) (k d : ℕ) (c : Channel E)
      → k ≡ length c.requests + length c.replies
      → Clear d c
      → let c' = close_deferred handle c in
        length c'.requests + length c'.replies + d ≡ k + c'.deferred
  unfolding close_deferred request
  close_counts handle k d c h q =
      omega (arith, length-append c.requests (close_blob handle ∷ []), h, q.0, q.1)

  pub read_rounds-Settles :
      (handle : ℤ) (size : ℕ) (replies : List (Reply E)) (n : ℕ) (eof : Bool)
      (parts : List (List ℕ)) (c : Channel E) (k d : ℕ)
      → k + n ≡ length c.requests + length replies
      → c.flushed ≡ length c.requests
      → Clear d c
      → Settles k d (read_rounds handle size replies n eof parts c)
  unfolding read_rounds flush request close_deferred
  read_rounds-Settles handle size replies zero eof parts c k d h f q =
      omega (arith, length-append c.requests (close_blob handle ∷ []), h, q.0, q.1)
  read_rounds-Settles handle size [] (suc n) eof parts c k d h f q =
      (refl, f, omega (arith, h, q.0, q.1))
  read_rounds-Settles handle size (failure e ∷ replies) (suc n) eof parts c k d h f q =
      drain-Settles n k d (record c { replies = replies })
        (λ c'. threw e (close_deferred handle c')) (omega (arith, h)) f q
        (λ c' h' f' q'. close_counts handle k d c' h' q')
  read_rounds-Settles handle size (response x id bytes ∷ replies) (suc n) true parts c k d h f q =
      read_rounds-Settles handle size replies n true parts c k d (omega (arith, h)) f q
  read_rounds-Settles handle size (response x id bytes ∷ replies) (suc n) false parts c k d h f q =
      elim (Bool-cases (segment (x, id, bytes)).1) [
        | inl t ↦
            rw (t, read_rounds)
              (read_rounds-Settles handle size replies n true
                (with_part (segment (x, id, bytes)).0 parts) c k d (omega (arith, h)) f q)
        | inr t ↦
            rw (t, read_rounds)
              (read_rounds-Settles handle size replies (suc n) false
                (with_part (segment (x, id, bytes)).0 parts)
                (flush (request (get_segment handle size) c)) k d
                (omega (arith, h, length-append c.requests (get_segment handle size ∷ []))) refl q)
      ]

  pub window_rounds-Settles :
      (replies : List (Reply E)) (n : ℕ) (eof : Bool) (chunks : List (List ℕ)) (c : Channel E)
      (k d : ℕ)
      → k + n ≡ length c.requests + length replies
      → c.flushed ≡ length c.requests
      → Clear d c
      → Settles k d (window_rounds replies n eof chunks c)
  unfolding window_rounds
  window_rounds-Settles replies zero eof chunks c k d h f q = omega (arith, h, q.0, q.1)
  window_rounds-Settles [] (suc n) eof chunks c k d h f q = (refl, f, omega (arith, h, q.0, q.1))
  window_rounds-Settles (failure e ∷ replies) (suc n) eof chunks c k d h f q =
      drain-Settles n k d (record c { replies = replies }) (λ c'. threw e c') (omega (arith, h)) f q
        (λ c' h' f' q'. omega (arith, h', q'.0, q'.1))
  window_rounds-Settles (response x id bytes ∷ replies) (suc n) true chunks c k d h f q =
      window_rounds-Settles replies n true chunks c k d (omega (arith, h)) f q
  window_rounds-Settles (response x id bytes ∷ replies) (suc n) false chunks c k d h f q =
      window_rounds-Settles replies n (segment (x, id, bytes)).1
        (with_part (segment (x, id, bytes)).0 chunks) c k d (omega (arith, h)) f q

  pub finish_rounds-Settles :
      (id : List ℕ) (replies : List (Reply E)) (n : ℕ) (c : Channel E) (k d : ℕ)
      → k + n ≡ length c.requests + length replies
      → c.flushed ≡ length c.requests
      → Clear d c
      → Settles k d (finish_rounds id replies n c)
  unfolding finish_rounds
  finish_rounds-Settles id replies zero c k d h f q = omega (arith, h, q.0, q.1)
  finish_rounds-Settles id [] (suc n) c k d h f q = (refl, f, omega (arith, h, q.0, q.1))
  finish_rounds-Settles id (failure e ∷ replies) (suc n) c k d h f q =
      drain-Settles n k d (record c { replies = replies }) (λ c'. threw e c') (omega (arith, h)) f q
        (λ c' h' f' q'. omega (arith, h', q'.0, q'.1))
  finish_rounds-Settles id (response x i bytes ∷ replies) (suc n) c k d h f q =
      finish_rounds-Settles id replies n c k d (omega (arith, h)) f q

  -- What is settled behind the responses to deferred requests is settled.
  pub Settles-later :
      {A : Type 0} (k k' d : ℕ) (o : Outcome E A) → k ≡ k' + d → Settles k' 0 o → Settles k d o
  Settles-later k k' d (done a c) e h = omega (arith, e, h)
  Settles-later k k' d (threw x c) e h = omega (arith, e, h)
  Settles-later k k' d (waiting c) e h = (h.0, h.1, omega (arith, e, h.2))

  pub skip-cases :
      (n : ℕ) (replies : List (Reply E)) (c : Channel E)
      → DeferredWell n replies
      → ((m : ℕ) × (skip_deferred n replies c ≡ waiting (record c { replies = []; deferred = m }))
          × (length replies + m ≡ n)
          × (0 < m))
        ⊎ ((rest : List (Reply E)) × (skip_deferred n replies c
              ≡ done tt (record c { replies = rest; deferred = 0 }))
            × (length replies ≡ n + length rest))
  unfolding skip_deferred
  skip-cases zero replies c h = inr (replies, refl, omega arith)
  skip-cases (suc n) [] c h = inl (suc n, refl, omega arith, omega arith)
  skip-cases (suc n) (failure e ∷ replies) c h = absurd h
  skip-cases (suc n) (response a i bytes ∷ replies) c h = elim (skip-cases n replies c h) [
    | inl (m, e, l, p) ↦ inl (m, e, omega (arith, l), p)
    | inr (rest, e, l) ↦ inr (rest, e, omega (arith, l))
  ]

  -- One response, behind a flush.
  pub response-Settles :
      {A : Type 0} (c : Channel E) (f : ℤ × List ℕ × List ℕ → Channel E → Outcome E A) (k : ℕ)
      → k + 1 ≡ length c.requests + length c.replies
      → c.flushed ≡ length c.requests
      → DeferredWell c.deferred c.replies
      → ((r : ℤ × List ℕ × List ℕ) (rest : List (Reply E))
          → k ≡ length c.requests + length rest + c.deferred
          → Settles
              (length c.requests + length rest)
              0
              (f r (record c { replies = rest; deferred = 0 })))
      → Settles k c.deferred (read_response c then f)
  unfolding read_response take_response
  response-Settles c f k h p w go = elim (skip-cases c.deferred c.replies c w) [
    | inl (m, e, l, g) ↦ rw e (refl, p, omega (arith, h, l, g))
    | inr (rest, e, l) ↦ elim (reply-cases rest) [
      | inl t ↦ let z = ap length t in rw (e, t, take_response) (z, p, omega (arith, h, l, z))
      | inr (inl (x, later, t)) ↦
          let z = ap length t in rw (e, t, take_response) (omega (arith, h, l, z))
      | inr (inr (a, i, bytes, later, t)) ↦
          let z = ap length t in
          let k' : k ≡ length c.requests + length later + c.deferred = omega (arith, h, l, z) in
          rw (e, t, take_response)
            (Settles-later k (length c.requests + length later) c.deferred _ k'
              (go (a, i, bytes) later k'))
    ]
  ]

-- ===== src/Blob/Channel/Many/Accounted.antt =====
-- The requests that readBlobs writes are counted by what is pending and what is unflushed.
use fast_firebird.Base.{
  ℕ, zero, suc, ◌+◌, ◌-◌, ◌<◌, ◌≡◌, ◌⊎◌, refl, ap, subst, inl, inr, Bool, true, false, Option, none,
  some, List, [], ◌∷◌, ◌==◌, ltb, leb, if◌then◌else◌, length, drop, min, ℤ, length-append,
  Bool-cases, arith,
}
use fast_firebird.Blob.Channel.{Reply, Request, open_blob, get_segment, close_blob, request, flush}
use fast_firebird.Blob.Channel.Reads.{pipeline_depth}
use fast_firebird.Blob.Channel.Many.{
  BlobState, Pending, opening, segment_of, closing, Batch, update_at, with_segment, write,
  flush_now, open_ahead, open_ahead_limit, ask, fill, fill_windows, pump, ready, got_segment,
}

pub handle-cases : (o : Option ℤ) → (o ≡ none) ⊎ ((handle : ℤ) × (o ≡ some handle))
handle-cases none = inl refl
handle-cases (some handle) = inr (handle, refl)

pub states-cases :
    (states : List BlobState)
    → (states ≡ []) ⊎ ((s : BlobState) × (rest : List BlobState) × (states ≡ s ∷ rest))
states-cases [] = inl refl
states-cases (s ∷ rest) = inr (s, rest, refl)

module _ {E : Type 0} where
  -- What is pending and what is unflushed are the requests without a reply but for the replies that will come.
  abbrev pub Accounted : ℕ → ℕ → List (Reply E) → Batch E → Type 0
  Accounted k d rs b =
      (k + length b.pending + length b.unflushed ≡ length b.channel.requests + length rs)
      × (0 < length b.pending → b.channel.flushed + length b.unflushed ≡ length b.channel.requests)
      × (b.channel.deferred ≡ d)
      × (b.channel.replies ≡ rs)

  write-Accounted :
      (r : Request) (p : Pending) (k d : ℕ) (rs : List (Reply E)) (b : Batch E)
      → Accounted k d rs b
      → Accounted k d rs (write r p b)
  unfolding write request
  write-Accounted r p k d rs b a =
      let l = length-append b.channel.requests (r ∷ []) in
      let m = length-append b.unflushed (p ∷ []) in
      (omega (arith, a.0, l, m), λ h. let f = a.1 h in omega (arith, f, l, m), a.2, a.3)

  pub flush_now-Accounted :
      (k d : ℕ) (rs : List (Reply E)) (b : Batch E)
      → Accounted k d rs b
      → Accounted k d rs (flush_now b)
  unfolding flush_now flush
  flush_now-Accounted k d rs b a = elim (Bool-cases (length b.unflushed == 0)) [
    | inl t ↦ rw (t, flush_now) a
    | inr t ↦
        rw (t, flush_now)
          (omega (arith, a.0, length-append b.pending b.unflushed), λ h. omega arith, a.2, a.3)
  ]

  open_ahead-Accounted :
      (tx : ℕ) (ids : List (List ℕ)) (k d : ℕ) (rs : List (Reply E)) (b : Batch E)
      → Accounted k d rs b
      → Accounted k d rs (open_ahead tx ids b)
  unfolding open_ahead
  open_ahead-Accounted tx [] k d rs b a = a
  open_ahead-Accounted tx (id ∷ ids) k d rs b a =
      elim (Bool-cases (ltb b.next_to_open (b.head + open_ahead_limit))) [
        | inr t ↦ rw (t, open_ahead) a
        | inl t ↦
            rw (t, open_ahead)
              (open_ahead-Accounted tx ids k d rs _
                (write-Accounted (open_blob tx id) (opening b.next_to_open) k d rs b a))
      ]

  ask-Accounted :
      (m size : ℕ) (handle : ℤ) (i k d : ℕ) (rs : List (Reply E)) (b : Batch E)
      → Accounted k d rs b
      → Accounted k d rs (ask m size handle i b)
  unfolding ask
  ask-Accounted zero size handle i k d rs b a = a
  ask-Accounted (suc m) size handle i k d rs b a =
      ask-Accounted m size handle i k d rs _
        (write-Accounted (get_segment handle size) (segment_of i) k d rs b a)

  fill-Accounted :
      (size : ℕ) (s : BlobState) (i k d : ℕ) (rs : List (Reply E)) (b : Batch E)
      → Accounted k d rs b
      → Accounted k d rs (fill size s i b)
  unfolding fill
  fill-Accounted size s i k d rs b a = elim (Bool-cases s.eof) [
    | inl t ↦ rw (t, fill) a
    | inr t ↦ elim (handle-cases s.handle) [
      | inl u ↦ rw (t, u, fill) a
      | inr (handle, u) ↦
          rw (t, u, fill)
            (ask-Accounted
              (min s.cap (s.in_flight + (pipeline_depth - b.total_in_flight)) - s.in_flight) size
              handle i k d rs b a)
    ]
  ]

  fill_windows-Accounted :
      (size : ℕ) (states : List BlobState) (i k d : ℕ) (rs : List (Reply E)) (b : Batch E)
      → Accounted k d rs b
      → Accounted k d rs (fill_windows size states i b)
  unfolding fill_windows
  fill_windows-Accounted size [] i k d rs b a = a
  fill_windows-Accounted size (s ∷ states) i k d rs b a =
      elim (Bool-cases (ltb b.total_in_flight pipeline_depth)) [
        | inr t ↦ rw (t, fill_windows) a
        | inl t ↦
            rw (t, fill_windows)
              (fill_windows-Accounted size states (i + 1) k d rs (fill size s i b)
                (fill-Accounted size s i k d rs b a))
      ]

  pump-Accounted :
      (tx : ℕ) (ids : List (List ℕ)) (size k d : ℕ) (rs : List (Reply E)) (b : Batch E)
      → Accounted k d rs b
      → Accounted k d rs (pump tx ids size b)
  unfolding pump
  pump-Accounted tx ids size k d rs b a =
      let b' = open_ahead tx (drop b.next_to_open ids) b in
      fill_windows-Accounted size (drop b'.head b'.blobs) b'.head k d rs b'
        (open_ahead-Accounted tx (drop b.next_to_open ids) k d rs b a)

  flush_some :
      (t : Bool) (k d : ℕ) (rs : List (Reply E)) (b : Batch E)
      → Accounted k d rs b
      → Accounted k d rs (if t then flush_now b else b)
  flush_some true k d rs b a = flush_now-Accounted k d rs b a
  flush_some false k d rs b a = a

  pub ready-Accounted :
      (tx : ℕ) (ids : List (List ℕ)) (size k d : ℕ) (rs : List (Reply E)) (b : Batch E)
      → Accounted k d rs b
      → Accounted k d rs (ready tx ids size b)
  unfolding ready
  ready-Accounted tx ids size k d rs b a =
      let b' = pump tx ids size b in
      let b'' = if leb 8 (length b'.unflushed) then flush_now b' else b' in
      flush_some (length b''.pending == 0) k d rs b''
        (flush_some (leb 8 (length b'.unflushed)) k d rs b' (pump-Accounted tx ids size k d rs b a))

  flush_if_empty :
      (b : Batch E)
      → (if length b.pending == 0 then flush_now b else b).pending ≡ []
      → length (if length b.pending == 0 then flush_now b else b).unflushed ≡ 0
  unfolding flush_now flush
  flush_if_empty b h = elim (Bool-cases (length b.pending == 0)) [
    | inr t ↦
        let e : (if length b.pending == 0 then flush_now b else b) ≡ b = rw t refl in
        let l : length b.pending ≡ 0 = ap length (subst (λ x. x.pending ≡ []) e h) in
        absurd (ground (arith, t, l))
    | inl t ↦ elim (Bool-cases (length b.unflushed == 0)) [
      | inl u ↦ rw (t, u, flush_now) (ground (arith, u))
      | inr u ↦ rw (t, u, flush_now) refl
    ]
  ]

  -- When nothing is pending before the shift, nothing is unflushed.
  pub ready_empty :
      (tx : ℕ) (ids : List (List ℕ)) (size : ℕ) (b : Batch E)
      → (ready tx ids size b).pending ≡ []
      → length (ready tx ids size b).unflushed ≡ 0
  unfolding ready
  ready_empty tx ids size b =
      let b' = pump tx ids size b in
      flush_if_empty (if leb 8 (length b'.unflushed) then flush_now b' else b')

  pub got_segment-Accounted :
      (i : ℕ) (seg : List ℕ × Bool) (k d : ℕ) (rs : List (Reply E)) (b : Batch E)
      → Accounted k d rs b
      → Accounted k d rs (got_segment i seg b)
  unfolding got_segment
  got_segment-Accounted i seg k d rs b a =
      let blobs = update_at i (λ s. record s { in_flight = s.in_flight - 1 }) b.blobs in
      let off : Batch E = record b { blobs = blobs; total_in_flight = b.total_in_flight - 1 } in
      let kept : Batch E = record off { blobs = update_at i (with_segment seg) blobs } in
      elim (states-cases (drop i blobs)) [
        | inl e ↦ rw (e, got_segment) a
        | inr (s, rest, e) ↦ elim (Bool-cases s.eof) [
          | inl t ↦ rw (e, t, got_segment) a
          | inr t ↦ elim (Bool-cases seg.1) [
            | inr u ↦ rw (e, t, u, got_segment) a
            | inl u ↦ elim (handle-cases s.handle) [
              | inl v ↦ rw (e, t, u, v, got_segment) a
              | inr (handle, v) ↦
                  rw (e, t, u, v, got_segment)
                    (write-Accounted (close_blob handle) closing k d rs kept a)
            ]
          ]
        ]
      ]

-- ===== src/Wire/Transport/Queue.antt =====
-- The queue of chunks is a list of bytes.
use fast_firebird.Base.{
  ℕ, suc, ◌+◌, ◌-◌, ◌≤◌, ◌<◌, ◌≡◌, refl, sym, ap, ◌∙◌, false, some, List, [], ◌∷◌, ◌++◌, leb, ◌==◌,
  length, take, drop, concat, concat-append, length-append, arith, inl, inr, Bool-cases,
  drop-append-le, length-drop, append-nil,
}
use fast_firebird.Wire.Transport.{ByteQueue, push, advance, gather, take_bytes}
use fast_firebird.Wire.Transport.Chunks.{
  stored, contents, IsValid, All-append_one, HeadFits-append, head_within, fast_bytes, advance_lem,
  gather_lem,
}

-- Pushing appends the bytes of the chunk.
pub push_lem :
    (chunk : List ℕ) (q : ByteQueue)
    → IsValid q
    → IsValid (push chunk q) × (contents (push chunk q) ≡ contents q ++ chunk)
unfolding push
push_lem [] q v = (v, sym (append-nil (contents q)))
push_lem (b ∷ chunk) q v =
    let same : stored (q.chunks ++ (b ∷ chunk) ∷ []) q.head ≡ contents q ++ b ∷ chunk =
      ap (drop q.head) (concat-append q.chunks (b ∷ chunk))
      ∙ drop-append-le q.head (concat q.chunks) (b ∷ chunk) (head_within q.chunks q.head v.1) in
    let on : (suc (length chunk) == 0) ≡ false = ground arith in
    rw (on, push)
      (
        (
          All-append_one q.chunks (b ∷ chunk) v.0 (omega arith),
          HeadFits-append q.chunks q.head (b ∷ chunk) (omega arith) v.1,
          omega (arith, v.2, ap length same, length-append (contents q) (b ∷ chunk)),
        ),
        same,
      )

abbrev queue_of : List (List ℕ) → ℕ → ℕ → ByteQueue
queue_of chunks head count = record { chunks = chunks; head = head; count = count }

-- What `take` answers when the loop succeeds.
took_slowly :
    (n head count : ℕ) {head' : ℕ} (c : List ℕ) (cs : List (List ℕ)) {t : List ℕ}
    {cs' : List (List ℕ)}
    → leb n (length c - head) ≡ false
    → gather (c ∷ cs) head n ≡ some (t, cs', head')
    → take_bytes n (queue_of (c ∷ cs) head count) ≡ some (t, queue_of cs' head' (count - n))
unfolding take_bytes
took_slowly n head count c cs e g = rw (e, g) refl

abbrev Takes : ℕ → ByteQueue → Type 0
Takes n q =
    (q' : ByteQueue) × (take_bytes n q ≡ some (take n (contents q), q'))
    × IsValid q'
    × contents q' ≡ drop n (contents q)

take_queue :
    (n : ℕ) (chunks : List (List ℕ)) (head count : ℕ)
    → IsValid (queue_of chunks head count)
    → n ≤ count
    → 0 < count
    → Takes n (queue_of chunks head count)
unfolding take_bytes
take_queue n [] head count v h k = absurd (omega (arith, v.2, length-drop {A = ℕ} head []))
take_queue n (c ∷ cs) head count v h k = elim (Bool-cases (leb n (length c - head))) [
  | inl e ↦
      let left = advance_lem n head c cs v.0 (ground arith) in
      let after = advance (head + n) c cs in
      (
        queue_of after.0 after.1 (count - n),
        rw (e, take_bytes)
            (ap (λ t. some (t, queue_of after.0 after.1 (count - n)))
              (fast_bytes n head c cs (ground arith))),
        (
          left.0,
          left.1,
          omega (arith, v.2, ap length left.2, length-drop n (stored (c ∷ cs) head)),
        ),
        left.2,
      )
  | inr e ↦
      let g = gather_lem (c ∷ cs) head n v.0 v.1 (omega (arith, v.2)) in
      (
        queue_of g.0 g.1 (count - n),
        took_slowly n head count c cs e g.2,
        (g.3.0, g.3.1, omega (arith, v.2, ap length g.3.2, length-drop n (stored (c ∷ cs) head))),
        g.3.2,
      )
]

-- A read of n bytes that are queued returns them, the first ones, and leaves the others, whatever
-- the chunks are, when at least one byte is queued.
pub take_bytes-contents :
    (n : ℕ) (q : ByteQueue)
    → IsValid q
    → n ≤ q.count
    → 0 < q.count
    → (q' : ByteQueue) × (take_bytes n q ≡ some (take n (contents q), q'))
      × IsValid q'
      × contents q' ≡ drop n (contents q)
take_bytes-contents n q v h k = take_queue n q.chunks q.head q.count v h k

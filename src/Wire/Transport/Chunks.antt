-- ===== src/Wire/Transport/Chunks.antt =====
-- The chunks of the queue as a list of bytes, and the loop that reads across them.
use fast_firebird.Base.{
  ℕ, zero, suc, ◌+◌, ◌-◌, ◌≤◌, ◌<◌, min, ◌≡◌, refl, sym, ap, ◌∙◌, true, false, some, List, [], ◌∷◌,
  ◌++◌, ◌==◌, ==_iff, drop-append_length, length, take, drop, slice, concat, length-append, All,
  arith, ◌>>=◌, inl, inr, Bool-cases, take-append-le, drop-append-le, take-append_more,
  drop-append_more, drop-drop, length-drop, take_all,
}
use fast_firebird.Wire.Transport.{ByteQueue, advance, gather}

-- The bytes that are queued.
abbrev pub stored : List (List ℕ) → ℕ → List ℕ
stored chunks head = drop head (concat chunks)

abbrev pub contents : ByteQueue → List ℕ
contents q = stored q.chunks q.head

abbrev pub HeadFits : List (List ℕ) → ℕ → Type 0
HeadFits [] head = head ≡ 0
HeadFits (c ∷ cs) head = head < length c

-- Chunks are not empty, the head is inside the first, and the count is that of the bytes.
abbrev pub IsValid : ByteQueue → Type 0
IsValid q =
    All (λ c. 0 < length c) q.chunks × HeadFits q.chunks q.head × (q.count ≡ length (contents q))

pub All-append_one :
    (cs : List (List ℕ)) (c : List ℕ)
    → All (λ c. 0 < length c) cs
    → 0 < length c
    → All (λ c. 0 < length c) (cs ++ c ∷ [])
All-append_one [] c h k = (k, tt)
All-append_one (x ∷ cs) c h k = (h.0, All-append_one cs c h.1 k)

pub HeadFits-append :
    (cs : List (List ℕ)) (head : ℕ) (c : List ℕ)
    → 0 < length c
    → HeadFits cs head
    → HeadFits (cs ++ c ∷ []) head
HeadFits-append [] head c h k = omega arith
HeadFits-append (x ∷ cs) head c h k = k

pub head_within : (cs : List (List ℕ)) (head : ℕ) → HeadFits cs head → head ≤ length (concat cs)
head_within [] head h = omega arith
head_within (c ∷ cs) head h = omega (arith, length-append c (concat cs))

-- What a read of n bytes leaves.
abbrev pub Left : ℕ → List (List ℕ) → ℕ → List (List ℕ) → ℕ → Type 0
Left n chunks head chunks' head' =
    All (λ c. 0 < length c) chunks'
    × HeadFits chunks' head'
    × (stored chunks' head' ≡ drop n (stored chunks head))

head_zero : (cs : List (List ℕ)) → All (λ c. 0 < length c) cs → HeadFits cs 0
head_zero [] h = refl
head_zero (c ∷ cs) h = h.0

pub advance_lem :
    (n head : ℕ) (c : List ℕ) (cs : List (List ℕ))
    → All (λ c. 0 < length c) (c ∷ cs)
    → head + n ≤ length c
    → let after = advance (head + n) c cs in Left n (c ∷ cs) head after.0 after.1
unfolding advance
advance_lem n head c cs h k = elim (Bool-cases ((head + n) == length c)) [
  | inl e ↦
      rw (e, advance)
        (
          h.1,
          head_zero cs h.1,
          sym (drop-append_length c (concat cs))
              ∙ ap (λ k. drop k (c ++ concat cs)) (sym ((==_iff (head + n) (length c)).0 e))
              ∙ drop-drop head n (c ++ concat cs),
        )
  | inr e ↦ rw (e, advance) (h, ground arith, drop-drop head n (c ++ concat cs))
]

pub fast_bytes :
    (n head : ℕ) (c : List ℕ) (cs : List (List ℕ))
    → head + n ≤ length c
    → slice head (head + n) c ≡ take n (stored (c ∷ cs) head)
fast_bytes n head c cs h =
    let z : head + n - head ≡ n = omega arith in
    ap (λ k. take k (drop head c)) z
    ∙ sym (
        ap (take n) (drop-append-le head c (concat cs) (omega arith))
        ∙ take-append-le n (drop head c) (concat cs) (omega (arith, length-drop head c)))

-- The bytes of a first chunk that is used up, and of those behind it.
slow_bytes :
    (n head : ℕ) (c : List ℕ) (cs : List (List ℕ))
    → head ≤ length c
    → length c ≤ head + n
    → drop head c ++ take (n - (length c - head)) (concat cs) ≡ take n (stored (c ∷ cs) head)
slow_bytes n head c cs h k =
    let z : length (drop head c) + (n - (length c - head)) ≡ n =
      omega (arith, length-drop head c) in
    sym (
      ap (take n) (drop-append-le head c (concat cs) h)
      ∙ ap (λ m. take m (drop head c ++ concat cs)) (sym z)
      ∙ take-append_more (n - (length c - head)) (drop head c) (concat cs))

slow_left :
    (n head : ℕ) (c : List ℕ) (cs : List (List ℕ))
    → head ≤ length c
    → length c ≤ head + n
    → drop (n - (length c - head)) (concat cs) ≡ drop n (stored (c ∷ cs) head)
slow_left n head c cs h k =
    let z : length (drop head c) + (n - (length c - head)) ≡ n =
      omega (arith, length-drop head c) in
    sym (
      ap (drop n) (drop-append-le head c (concat cs) h)
      ∙ ap (λ m. drop m (drop head c ++ concat cs)) (sym z)
      ∙ drop-append_more (n - (length c - head)) (drop head c) (concat cs))

gather_step :
    (c : List ℕ) (cs : List (List ℕ)) (head n : ℕ)
    → (n == 0) ≡ false
    → (head + min (length c - head) n == length c) ≡ true
    → gather (c ∷ cs) head n ≡ (
        gather cs 0 (n - min (length c - head) n) >>= λ out.
        some (slice head (head + min (length c - head) n) c ++ out.0, out.1, out.2))
unfolding gather
gather_step c cs head n e f = rw (e, f) refl

-- The step of the loop that uses a chunk up.
gather_used :
    {cs' : List (List ℕ)} (c : List ℕ) (cs : List (List ℕ)) (head n : ℕ) (t : List ℕ) (head' : ℕ)
    → (n == 0) ≡ false
    → (head + min (length c - head) n == length c) ≡ true
    → min (length c - head) n ≡ length c - head
    → gather cs 0 (n - (length c - head)) ≡ some (t, cs', head')
    → gather (c ∷ cs) head n ≡ some (slice head (head + (length c - head)) c ++ t, cs', head')
gather_used c cs head n t head' e f z more = gather_step c cs head n e f ∙ rw (z, more) refl

pub gather_lem :
    (cs : List (List ℕ)) (head n : ℕ)
    → All (λ c. 0 < length c) cs
    → HeadFits cs head
    → n ≤ length (stored cs head)
    → (cs' : List (List ℕ)) × (head' : ℕ) × (gather cs head n
        ≡ some (take n (stored cs head), cs', head'))
      × Left n cs head cs' head'
unfolding gather
gather_lem [] head zero h k w = ([], head, refl, (tt, k, refl))
gather_lem [] head (suc n) h k w = absurd (omega (arith, length-drop {A = ℕ} head []))
gather_lem (c ∷ cs) head n h k w = elim (Bool-cases (n == 0)) [
  | inl e ↦
      let z : n ≡ 0 = (==_iff n 0).0 e in
      (
        c ∷ cs,
        head,
        rw (e, z, gather) refl,
        (h, k, ap (λ m. drop m (stored (c ∷ cs) head)) {x = 0} {y = n} (sym z)),
      )
  | inr e ↦ elim (Bool-cases ((head + min (length c - head) n) == length c)) [
    | inr f ↦
        let z : min (length c - head) n ≡ n = ground arith in
        (
          c ∷ cs,
          head + n,
          rw (e, f, z, gather)
              (ap (λ t. some (t, c ∷ cs, head + n)) (fast_bytes n head c cs (ground arith))),
          (h, ground arith, drop-drop head n (c ++ concat cs)),
        )
    | inl f ↦
        let z : min (length c - head) n ≡ length c - head = ground arith in
        let more =
          gather_lem cs 0 (n - (length c - head)) h.1 (head_zero cs h.1)
            (omega (arith, length-drop head (c ++ concat cs), length-append c (concat cs))) in
        (
          more.0,
          more.1,
          gather_used c cs head n _ more.1 e f z more.2
              ∙ ap (λ t. some (t, more.0, more.1))
                  (ap (λ t. t ++ take (n - (length c - head)) (concat cs))
                      (take_all (head + (length c - head) - head) (drop head c)
                        (omega (arith, length-drop head c)))
                    ∙ slow_bytes n head c cs (ground arith) (ground arith)),
          (more.3.0, more.3.1, more.3.2 ∙ slow_left n head c cs (ground arith) (ground arith)),
        )
  ]
]

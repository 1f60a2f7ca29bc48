-- ===== src/Wire/Transport/Reads.antt =====
-- Reads see the decrypted stream, and writes are encrypted as one stream, however both are cut.
use fast_firebird.Base.{
  ℕ, ◌≤◌, ◌<◌, ◌≡◌, refl, sym, ap, subst, ◌∙◌, true, false, Option, none, some, List, [], ◌∷◌, ◌++◌,
  map, ltb, length, take, drop, concat, concat-append, append_assoc, append-nil, arith,
  take-append-le, drop-append-le, inl, inr, Bool-cases,
}
use fast_firebird.Wire.Cipher.{Cipher}
use fast_firebird.Wire.Transport.{
  received, Transport, ReadOutcome, got, crypt, on_data, deliver, taken, read, socket_write,
}
use fast_firebird.Wire.Transport.Chunks.{contents, IsValid}
use fast_firebird.Wire.Transport.Queue.{push_lem, take_bytes-contents}

module _ (cipher : Cipher) where
  crypt_append :
      (xs ys : List ℕ) (s : Option cipher.State)
      → crypt cipher (xs ++ ys) s ≡ (
        (crypt cipher xs s).0 ++ (crypt cipher ys (crypt cipher xs s).1).0,
        (crypt cipher ys (crypt cipher xs s).1).1,
      )
  crypt_append xs ys none = refl
  crypt_append xs ys (some s) = ap (λ t. (t.0, some t.1)) (cipher.process_append xs ys s)

  -- All that a connection can read: what is queued, and what will arrive, decrypted.
  abbrev pub plain : Transport cipher → List (List ℕ) → List ℕ
  plain t arriving = contents t.rx ++ (crypt cipher (concat arriving) t.rx_crypt).0

  plain-on_data :
      (bytes : List ℕ) (arriving : List (List ℕ)) (t : Transport cipher)
      → IsValid t.rx
      → plain (on_data cipher bytes t) arriving ≡ plain t (bytes ∷ arriving)
  unfolding on_data
  plain-on_data bytes arriving t v =
      let out = crypt cipher bytes t.rx_crypt in
      let later = (crypt cipher (concat arriving) out.1).0 in
      ap (λ x. x ++ later) (push_lem out.0 t.rx v).1
      ∙ append_assoc (contents t.rx) out.0 later
      ∙ ap (λ x. contents t.rx ++ x)
          (sym (ap (λ x. x.0) (crypt_append bytes (concat arriving) t.rx_crypt)))

  -- What a read gives when it does not fail or wait.
  abbrev pub Reads : ℕ → List ℕ → ReadOutcome cipher → Type 0
  Reads n stream out =
      (t' : Transport cipher) × (arriving' : List (List ℕ)) × (out
        ≡ got (take n stream) (map received arriving') t')
      × IsValid t'.rx
      × (t'.failed ≡ false)
      × (plain t' arriving' ≡ drop n stream)

  crypt_nil : (s : Option cipher.State) → crypt cipher [] s ≡ ([], s)
  crypt_nil none = refl
  crypt_nil (some s) = ap (λ t. (t.0, some t.1)) (cipher.process_nil s)

  plain_nil : (t : Transport cipher) → plain t [] ≡ contents t.rx
  plain_nil t = ap (λ x. contents t.rx ++ x.0) (crypt_nil t.rx_crypt) ∙ append-nil (contents t.rx)

  taken_lem :
      (n : ℕ) (arriving : List (List ℕ)) (t : Transport cipher)
      → IsValid t.rx
      → t.failed ≡ false
      → n ≤ t.rx.count
      → 0 < n
      → Reads n (plain t arriving) (taken cipher n (map received arriving) t)
  unfolding taken
  taken_lem n arriving t v f h k =
      let tb = take_bytes-contents n t.rx v h (omega arith) in
      let later = (crypt cipher (concat arriving) t.rx_crypt).0 in
      let fits : n ≤ length (contents t.rx) = omega (arith, v.2) in
      (
        record t { rx = tb.0 },
        arriving,
        rw (tb.1, taken)
            (ap (λ x. got x (map received arriving) (record t { rx = tb.0 }))
              (sym (take-append-le n (contents t.rx) later fits))),
        tb.2,
        f,
        ap (λ x. x ++ later) tb.3 ∙ sym (drop-append-le n (contents t.rx) later fits),
      )

  read_step :
      (n : ℕ) (d : List ℕ) (arriving : List (List ℕ)) (t : Transport cipher)
      → ltb t.rx.count n ≡ true
      → t.failed ≡ false
      → read cipher n (map received arriving) (on_data cipher d t)
        ≡ read cipher n (map received (d ∷ arriving)) t
  unfolding read deliver
  read_step n d arriving t e f = rw (e, f, read) refl

  read_enough :
      (n : ℕ) (arriving : List (List ℕ)) (t : Transport cipher)
      → ltb t.rx.count n ≡ false
      → taken cipher n (map received arriving) t ≡ read cipher n (map received arriving) t
  unfolding read
  read_enough n [] t e = rw e refl
  read_enough n (d ∷ arriving) t e = rw (e, read) refl

  -- A read of at least one byte that the stream has returns its first n bytes, decrypted, and what
  -- can be read after it is the rest, whatever chunks the socket cut the stream into.
  pub read-plain :
      (n : ℕ) (arriving : List (List ℕ)) (t : Transport cipher)
      → IsValid t.rx
      → t.failed ≡ false
      → 0 < n
      → n ≤ length (plain t arriving)
      → Reads n (plain t arriving) (read cipher n (map received arriving) t)
  unfolding on_data
  read-plain n [] t v f k h = elim (Bool-cases (ltb t.rx.count n)) [
    | inr e ↦
        subst (Reads n (plain t [])) (read_enough n [] t e) (taken_lem n [] t v f (ground arith) k)
    | inl e ↦ absurd (ground (arith, ap length (plain_nil t), v.2))
  ]
  read-plain n (d ∷ arriving) t v f k h = elim (Bool-cases (ltb t.rx.count n)) [
    | inr e ↦
        subst (Reads n (plain t (d ∷ arriving))) (read_enough n (d ∷ arriving) t e)
          (taken_lem n (d ∷ arriving) t v f (ground arith) k)
    | inl e ↦
        let t' = on_data cipher d t in
        let same = plain-on_data d arriving t v in
        subst (Reads n (plain t (d ∷ arriving))) (read_step n d arriving t e f) (
          subst (λ s. Reads n s (read cipher n (map received arriving) t')) same
            (read-plain n arriving t' (push_lem _ t.rx v).0 f k
              (subst (λ s. n ≤ length s) (sym same) h)))
  ]

  abbrev written_to : List ℕ → Transport cipher → Transport cipher
  written_to p t =
      let out = crypt cipher p t.tx_crypt in
      record t { tx_crypt = out.1; written = t.written ++ out.0 ∷ [] }

  socket_write_lem :
      (p : List ℕ) (t : Transport cipher)
      → t.failed ≡ false
      → socket_write cipher p t ≡ written_to p t
  unfolding socket_write
  socket_write_lem p t f = rw f refl

  -- Packets that are written one after the other.
  abbrev pub write_all : List (List ℕ) → Transport cipher → Transport cipher
  write_all [] t = t
  write_all (p ∷ ps) t = write_all ps (socket_write cipher p t)

  -- The packets written to a connection that did not fail are encrypted as one stream: the bytes on
  -- the socket are those written before and the encryption of all packets behind each other.
  pub write_all-crypt :
      (packets : List (List ℕ)) (t : Transport cipher)
      → t.failed ≡ false
      → let out = write_all packets t in
        (concat out.written ≡ concat t.written ++ (crypt cipher (concat packets) t.tx_crypt).0)
        × out.tx_crypt ≡ (crypt cipher (concat packets) t.tx_crypt).1
  write_all-crypt [] t f =
      let nil = crypt_nil t.tx_crypt in
      (
        sym (ap (λ x. concat t.written ++ x.0) nil ∙ append-nil (concat t.written)),
        sym (ap (λ x. x.1) nil),
      )
  write_all-crypt (p ∷ packets) t f =
      let out = crypt cipher p t.tx_crypt in
      let t' = written_to p t in
      let all = crypt_append p (concat packets) t.tx_crypt in
      let rest = write_all-crypt packets t' f in
      let later = (crypt cipher (concat packets) out.1).0 in
      subst
        (λ u.
          (concat (write_all packets u).written
            ≡ concat t.written ++ (crypt cipher (p ++ concat packets) t.tx_crypt).0)
          × (write_all packets u).tx_crypt ≡ (crypt cipher (p ++ concat packets) t.tx_crypt).1)
        (sym (socket_write_lem p t f))
        (
          rest.0
              ∙ ap (λ x. x ++ later) (concat-append t.written out.0)
              ∙ append_assoc (concat t.written) out.0 later
              ∙ ap (λ x. concat t.written ++ x.0) (sym all),
          rest.1 ∙ ap (λ x. x.1) (sym all),
        )

-- ===== src/Wire/Responses/Operations.antt =====
-- Operations read from what the server sent.
use fast_firebird.Base.{
  ℕ, zero, suc, ◌-◌, ◌^◌, ◌≤◌, ◌<◌, ◌≡◌, refl, sym, ap, subst, ◌∙◌, Bool, true, false, ◌&&◌, not,
  none, List, [], ◌∷◌, ◌++◌, ltb, length, replicate, length-append, All, ℤ, pos, InSigned,
  append_assoc, append-nil, arith, lt→ltb,
}
use fast_firebird.Wire.Xdr.{pad4}
use fast_firebird.Wire.Responses.{
  ok, read_bytes, read_int32, read_opaque, is_code, Status, read_status_vector, first_error,
  checked, GenericResponse, parse_response_body, InlineBlob, read_inline_blob, read_op_from,
  read_op,
}
use fast_firebird.Wire.Responses.Encoding.{
  word, counted, success, read_bytes_lem, read_int32-word, read_opaque-counted, read_success,
}

-- The steps of `readOp`, each from what the reads in it gave.
dummy_step :
    (fuel d : ℕ) (blobs : List InlineBlob) (bs rest : List ℕ)
    → read_int32 bs ≡ ok (pos 71) rest
    → read_op_from (suc fuel) d blobs bs ≡ read_op_from fuel d blobs rest
unfolding read_op_from
dummy_step fuel d blobs bs rest e = rw (e, read_op_from) refl

deferred_step :
    (fuel d : ℕ) (blobs : List InlineBlob) (bs rest : List ℕ) (r : GenericResponse) (rest' : List ℕ)
    → read_int32 bs ≡ ok (pos 9) rest
    → ltb 0 d ≡ true
    → parse_response_body rest ≡ ok r rest'
    → read_op_from (suc fuel) d blobs bs ≡ read_op_from fuel (d - 1) blobs rest'
unfolding read_op_from
deferred_step fuel d blobs bs rest r rest' e f g = rw (e, f, g, read_op_from) refl

inline_step :
    (fuel d : ℕ) (blobs : List InlineBlob) (bs rest : List ℕ) (b : InlineBlob) (rest' : List ℕ)
    → read_int32 bs ≡ ok (pos 114) rest
    → read_inline_blob rest ≡ ok b rest'
    → read_op_from (suc fuel) d blobs bs ≡ read_op_from fuel d (blobs ++ b ∷ []) rest'
unfolding read_op_from
inline_step fuel d blobs bs rest b rest' e g = rw (e, g, read_op_from) refl

abbrev pub is_next : ℤ → ℕ → Bool
is_next op d = not (is_code op 71) && not (is_code op 9 && ltb 0 d) && not (is_code op 114)

none_of :
    (a b c : Bool) → (not a && not b && not c) ≡ true → (a ≡ false) × (b ≡ false) × (c ≡ false)
none_of a b c h = ground arith

last_step :
    (fuel d : ℕ) (blobs : List InlineBlob) (bs rest : List ℕ) (op : ℤ)
    → read_int32 bs ≡ ok op rest
    → is_next op d ≡ true
    → read_op_from (suc fuel) d blobs bs ≡ ok (record { op = op; deferred = d; blobs = blobs }) rest
unfolding read_op_from
last_step fuel d blobs bs rest op e f =
    let g = none_of (is_code op 71) (is_code op 9 && ltb 0 d) (is_code op 114) f in
    rw (e, g.0, g.1, g.2, read_op_from) refl

body_step :
    (bs r1 r2 r3 rest : List ℕ) (handle : ℤ) (oid body : List ℕ) (s : Status)
    → read_int32 bs ≡ ok handle r1
    → read_bytes 8 r1 ≡ ok oid r2
    → read_opaque r2 ≡ ok body r3
    → read_status_vector r3 ≡ ok s rest
    → parse_response_body bs ≡ checked handle oid body (first_error s.clusters) s rest
unfolding parse_response_body
body_step bs r1 r2 r3 rest handle oid body s a b c d = rw (a, b, c, d) refl

inline_read :
    (bs r1 r2 r3 rest : List ℕ) (b : InlineBlob)
    → read_int32 bs ≡ ok b.tx_id r1
    → read_bytes 8 r1 ≡ ok b.blob_id r2
    → read_opaque r2 ≡ ok b.info r3
    → read_opaque r3 ≡ ok b.content rest
    → read_inline_blob bs ≡ ok b rest
unfolding read_inline_blob
inline_read bs r1 r2 r3 rest b e f g h = rw (e, f, g, h) refl

-- What the server sends ahead of the operation that is waited for.
pub data Packet : Type 0 where
  keep_alive : Packet
  deferred_done : ℤ → List ℕ → List ℕ → Packet
  inlined : InlineBlob → Packet

abbrev pub sent : Packet → List ℕ → List ℕ
sent keep_alive rest = word (pos 71) rest
sent (deferred_done handle oid body) rest =
    word (pos 9) (word handle (oid ++ counted body (success rest)))
sent (inlined b) rest =
    word (pos 114) (word b.tx_id (b.blob_id ++ counted b.info (counted b.content rest)))

abbrev pub all_sent : List Packet → List ℕ → List ℕ
all_sent [] rest = rest
all_sent (p ∷ ps) rest = sent p (all_sent ps rest)

abbrev pub InBounds : Packet → Type 0
InBounds keep_alive = Unit {0}
InBounds (deferred_done handle oid body) =
    InSigned (2 ^ 32) handle × (length oid ≡ 8) × length body < 2 ^ 32
InBounds (inlined b) =
    InSigned (2 ^ 32) b.tx_id
    × (length b.blob_id ≡ 8)
    × length b.info < 2 ^ 32
    × length b.content < 2 ^ 32

abbrev pub deferred_in : List Packet → ℕ
deferred_in [] = 0
deferred_in (deferred_done handle oid body ∷ ps) = suc (deferred_in ps)
deferred_in (keep_alive ∷ ps) = deferred_in ps
deferred_in (inlined b ∷ ps) = deferred_in ps

abbrev pub blobs_in : List Packet → List InlineBlob
blobs_in [] = []
blobs_in (inlined b ∷ ps) = b ∷ blobs_in ps
blobs_in (keep_alive ∷ ps) = blobs_in ps
blobs_in (deferred_done handle oid body ∷ ps) = blobs_in ps

read_eight : (b rest : List ℕ) → length b ≡ 8 → read_bytes 8 (b ++ rest) ≡ ok b rest
read_eight b rest h = subst (λ k. read_bytes k (b ++ rest) ≡ ok b rest) h (read_bytes_lem b rest)

read_packets :
    (ps : List Packet) (op : ℤ) (rest : List ℕ) (fuel d : ℕ) (blobs : List InlineBlob)
    → All InBounds ps
    → InSigned (2 ^ 32) op
    → deferred_in ps ≤ d
    → is_next op (d - deferred_in ps) ≡ true
    → length ps < fuel
    → read_op_from fuel d blobs (all_sent ps (word op rest))
      ≡ ok (record { op = op; deferred = d - deferred_in ps; blobs = blobs ++ blobs_in ps }) rest
read_packets ps op rest zero d blobs v o k n f = absurd (omega arith)
read_packets [] op rest (suc fuel) d blobs v o k n f =
    let z : d - 0 ≡ d = omega arith in
    rw (z, append-nil blobs)
      (last_step fuel d blobs _ rest op (read_int32-word op rest o)
        (subst (λ x. is_next op x ≡ true) z n))
read_packets (keep_alive ∷ ps) op rest (suc fuel) d blobs v o k n f =
    dummy_step fuel d blobs _ _ (read_int32-word (pos 71) _ (omega arith))
    ∙ read_packets ps op rest fuel d blobs v.1 o k n (omega arith)
read_packets (deferred_done handle oid body ∷ ps) op rest (suc fuel) d blobs v o k n f =
    let less : d - 1 - deferred_in ps ≡ d - suc (deferred_in ps) = omega arith in
    let s : Status = record { args = []; clusters = []; state = none } in
    deferred_step fuel d blobs _ _ _ _ (read_int32-word (pos 9) _ (omega arith))
      (lt→ltb 0 d (omega arith))
      (body_step _ _ _ _ _ handle oid body s (read_int32-word handle _ v.0.0)
        (read_eight oid _ v.0.1) (read_opaque-counted body _ v.0.2) (read_success _))
    ∙ read_packets ps op rest fuel (d - 1) blobs v.1 o (omega arith)
        (subst (λ x. is_next op x ≡ true) (sym less) n) (omega arith)
    ∙ ap (λ x. ok (record { op = op; deferred = x; blobs = blobs ++ blobs_in ps }) rest) less
read_packets (inlined b ∷ ps) op rest (suc fuel) d blobs v o k n f =
    inline_step fuel d blobs _ _ b _ (read_int32-word (pos 114) _ (omega arith)) (
      inline_read _ _ _ _ _ b (read_int32-word b.tx_id _ v.0.0) (read_eight b.blob_id _ v.0.1)
        (read_opaque-counted b.info _ v.0.2) (read_opaque-counted b.content _ v.0.3))
    ∙ read_packets ps op rest fuel d (blobs ++ b ∷ []) v.1 o k n (omega arith)
    ∙ ap (λ x. ok (record { op = op; deferred = d - deferred_in ps; blobs = x }) rest)
        (append_assoc blobs (b ∷ []) (blobs_in ps))

length-all_sent-le : (ps : List Packet) (rest : List ℕ) → length ps ≤ length (all_sent ps rest)
length-all_sent-le [] rest = omega arith
length-all_sent-le (keep_alive ∷ ps) rest = omega (arith, length-all_sent-le ps rest)
length-all_sent-le (deferred_done handle oid body ∷ ps) rest = omega (
  arith,
  length-all_sent-le ps rest,
  length-append oid (counted body (success (all_sent ps rest))),
  length-append (body ++ replicate (pad4 (length body) - length body) 0)
      (success (all_sent ps rest)),
)
length-all_sent-le (inlined b ∷ ps) rest =
    let content = counted b.content (all_sent ps rest) in
    omega (
      arith,
      length-all_sent-le ps rest,
      length-append b.blob_id (counted b.info content),
      length-append (b.info ++ replicate (pad4 (length b.info) - length b.info) 0) content,
      length-append (b.content ++ replicate (pad4 (length b.content) - length b.content) 0)
          (all_sent ps rest),
    )

-- The next operation is found behind any keep-alives, responses to deferred operations that went
-- well, no more than were deferred, and inline blobs: these are consumed in order, the responses
-- are counted off, each blob is handed on once, and what follows the operation is left unread.
pub read_op-all_sent :
    (ps : List Packet) (op : ℤ) (rest : List ℕ) (d : ℕ)
    → All InBounds ps
    → InSigned (2 ^ 32) op
    → deferred_in ps ≤ d
    → is_next op (d - deferred_in ps) ≡ true
    → read_op d (all_sent ps (word op rest))
      ≡ ok (record { op = op; deferred = d - deferred_in ps; blobs = blobs_in ps }) rest
unfolding read_op
read_op-all_sent ps op rest d v o k n =
    read_packets ps op rest (suc (length (all_sent ps (word op rest)))) d [] v o k n
      (omega (arith, length-all_sent-le ps (word op rest)))

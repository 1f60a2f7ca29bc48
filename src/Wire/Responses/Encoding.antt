-- ===== src/Wire/Responses/Encoding.antt =====
-- What the server writes, and that it is read back.
use fast_firebird.Base.{
  ℕ, suc, ◌-◌, ◌^◌, ◌<◌, ◌≡◌, refl, ap, subst, ◌∙◌, true, false, none, List, [], ◌∷◌, ◌++◌, leb,
  ◌==◌, if◌then◌else◌, length, take, replicate, be_value, be_bytes, be_value-be_bytes,
  length-be_bytes, length-append, length-replicate, ℤ, pos, signed, wrap, InSigned, signed-wrap32,
  wrap32-lt, take-append_length, drop-append_length, arith,
}
use fast_firebird.Wire.Xdr.{pad4}
use fast_firebird.Wire.Responses.{
  ok, ◌then◌, read_bytes, read_uint32, read_int32, read_opaque, Status, status_from,
  read_status_vector, add_code,
}

-- What the server writes, in front of what it writes then.
abbrev pub word : ℤ → List ℕ → List ℕ
word v rest = be_bytes 4 (wrap (2 ^ 32) v) ++ rest

abbrev pub counted : List ℕ → List ℕ → List ℕ
counted b rest = be_bytes 4 (length b) ++ ((b ++ replicate (pad4 (length b) - length b) 0) ++ rest)

-- The status of a call that went well.
abbrev pub success : List ℕ → List ℕ
success rest = word (pos 1) (word (pos 0) (word (pos 0) rest))

pub read_bytes_lem : (b rest : List ℕ) → read_bytes (length b) (b ++ rest) ≡ ok b rest
unfolding read_bytes
read_bytes_lem b rest =
    let fits : leb (length b) (length (b ++ rest)) ≡ true = ground (arith, length-append b rest) in
    rw (fits, take-append_length b rest, drop-append_length b rest) refl

pub read_four :
    (n : ℕ) (rest : List ℕ) → read_bytes 4 (be_bytes 4 n ++ rest) ≡ ok (be_bytes 4 n) rest
read_four n rest =
    subst (λ k. read_bytes k (be_bytes 4 n ++ rest) ≡ ok (be_bytes 4 n) rest) (length-be_bytes 4 n)
      (read_bytes_lem (be_bytes 4 n) rest)

pub read_int32-word :
    (v : ℤ) (rest : List ℕ) → InSigned (2 ^ 32) v → read_int32 (word v rest) ≡ ok v rest
unfolding read_int32
read_int32-word v rest h =
    ap (λ o. o then λ b r. ok (signed (2 ^ 32) (be_value 0 b)) r) (read_four _ rest)
    ∙ ap (λ n. ok (signed (2 ^ 32) n) rest) (be_value-be_bytes 4 _ (wrap32-lt v))
    ∙ ap (λ n. ok n rest) (signed-wrap32 v h)

read_uint32_lem :
    (n : ℕ) (rest : List ℕ) → n < 2 ^ 32 → read_uint32 (be_bytes 4 n ++ rest) ≡ ok n rest
unfolding read_uint32
read_uint32_lem n rest h =
    ap (λ o. o then λ b r. ok (be_value 0 b) r) (read_four n rest)
    ∙ ap (λ n. ok n rest) (be_value-be_bytes 4 n h)

read_padded :
    (b rest : List ℕ)
    → let padded = b ++ replicate (pad4 (length b) - length b) 0 in
      read_bytes (pad4 (length b)) (padded ++ rest) ≡ ok padded rest
read_padded b rest =
    let zeros = replicate (pad4 (length b) - length b) 0 in
    let long : length (b ++ zeros) ≡ pad4 (length b) =
      omega
        (arith, length-append b zeros, length-replicate {A = ℕ} (pad4 (length b) - length b) 0) in
    subst (λ k. read_bytes k ((b ++ zeros) ++ rest) ≡ ok (b ++ zeros) rest) long
      (read_bytes_lem (b ++ zeros) rest)

-- The length read is that of the bytes behind it.
opaque_step :
    (len : ℕ) (bs b padded rest rest' : List ℕ)
    → read_uint32 bs ≡ ok len rest
    → (len == 0) ≡ false
    → read_bytes (pad4 len) rest ≡ ok padded rest'
    → take len padded ≡ b
    → read_opaque bs ≡ ok b rest'
unfolding read_opaque
opaque_step len bs b padded rest rest' e f g t = rw (e, f, g, t) refl

opaque_empty : (bs rest : List ℕ) → read_uint32 bs ≡ ok 0 rest → read_opaque bs ≡ ok [] rest
unfolding read_opaque
opaque_empty bs rest e = rw e refl

pub read_opaque-counted :
    (b rest : List ℕ) → length b < 2 ^ 32 → read_opaque (counted b rest) ≡ ok b rest
read_opaque-counted [] rest h = opaque_empty _ rest (read_uint32_lem 0 rest h)
read_opaque-counted (x ∷ b) rest h =
    opaque_step (suc (length b)) _ (x ∷ b) _ _ rest (read_uint32_lem (suc (length b)) _ h)
      (ground arith) (read_padded (x ∷ b) rest) (take-append_length (x ∷ b) _)

status_end :
    (fuel : ℕ) (s : Status) (bs rest : List ℕ)
    → read_int32 bs ≡ ok (pos 0) rest
    → status_from (suc fuel) s bs ≡ ok s rest
unfolding status_from
status_end fuel s bs rest e = rw (e, status_from) refl

status_zero :
    (fuel : ℕ) (s : Status) (bs rest rest' : List ℕ)
    → read_int32 bs ≡ ok (pos 1) rest
    → read_int32 rest ≡ ok (pos 0) rest'
    → status_from (suc fuel) s bs ≡ status_from fuel s rest'
unfolding status_from add_code
status_zero fuel s bs rest rest' e f = rw (e, f, status_from) refl

pub read_success :
    (rest : List ℕ)
    → read_status_vector (success rest)
      ≡ ok (record { args = []; clusters = []; state = none }) rest
unfolding read_status_vector
read_success rest =
    let s : Status = record { args = []; clusters = []; state = none } in
    status_zero (length (success rest)) s _ _ _ (read_int32-word (pos 1) _ (omega arith))
      (read_int32-word (pos 0) _ (omega arith))
    ∙ status_end _ s _ rest (read_int32-word (pos 0) rest (omega arith))

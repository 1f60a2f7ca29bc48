-- ===== src/Rows/Pieces.antt =====
-- The pieces of a message, read back.
use fast_firebird.Base.{
  ℕ, ◌+◌, ◌-◌, ◌*◌, ◌%◌, ◌^◌, ◌<◌, ◌≡◌, refl, ◌∙◌, ap, subst, true, false, List, [], ◌∷◌, ◌++◌,
  ◌==◌, length, replicate, ℤ, pos, negsuc, signed, wrap, InSigned, signed-wrap64, wrap64-lt,
  be_bytes, be_value, be_value-be_bytes, length-be_bytes, length-append, length-replicate,
  take-append_length, if◌then◌else◌, arith,
}
use fast_firebird.Wire.Xdr.{pad4, fits_int64}
use fast_firebird.Wire.Responses.{ok, ◌then◌, read_bytes, read_int32}
use fast_firebird.Wire.Responses.Encoding.{read_bytes_lem, read_four}
use fast_firebird.Rows.Params.{high_part}
use fast_firebird.Rows.Reading.{int128_value, read_padded, read_unsigned, read_zone, skip_offset}

pub read_padded_lem :
    (b rest : List ℕ) (fill : ℕ)
    → read_padded (length b) ((b ++ replicate (pad4 (length b) - length b) fill) ++ rest)
      ≡ ok b rest
unfolding read_padded
read_padded_lem [] rest fill = refl
read_padded_lem (c ∷ s) rest fill =
    let b = c ∷ s in
    let fills = replicate (pad4 (length b) - length b) fill in
    let size : length (b ++ fills) ≡ pad4 (length b) =
      omega (arith, length-append b fills, length-replicate (pad4 (length b) - length b) fill) in
    let z : (length b == 0) ≡ false = ground arith in
    let r : read_bytes (pad4 (length b)) ((b ++ fills) ++ rest) ≡ ok (b ++ fills) rest =
      subst (λ k. read_bytes k ((b ++ fills) ++ rest) ≡ ok (b ++ fills) rest) size
        (read_bytes_lem (b ++ fills) rest) in
    rw (z, r, take-append_length b fills) refl

-- Bytes of a known number.
pub read_sized : (n : ℕ) (b rest : List ℕ) → length b ≡ n → read_bytes n (b ++ rest) ≡ ok b rest
read_sized n b rest h = subst (λ k. read_bytes k (b ++ rest) ≡ ok b rest) h (read_bytes_lem b rest)

signed_word :
    (n : ℕ) (rest : List ℕ)
    → n < 2 ^ 32
    → read_int32 (be_bytes 4 n ++ rest) ≡ ok (signed (2 ^ 32) n) rest
unfolding read_int32
signed_word n rest h =
    ap (λ o. o then λ b r. ok (signed (2 ^ 32) (be_value 0 b)) r) (read_four n rest)
    ∙ ap (λ k. ok (signed (2 ^ 32) k) rest) (be_value-be_bytes 4 n h)

wrap-signed : (n : ℕ) → n < 2 ^ 32 → wrap (2 ^ 32) (signed (2 ^ 32) n) ≡ n
wrap-signed n h = ground arith

wrap-signed_zone : (n : ℕ) → n < 65536 → wrap 65536 (signed (2 ^ 32) n) ≡ n
wrap-signed_zone n h = ground arith

pub read_unsigned_lem :
    (n : ℕ) (rest : List ℕ)
    → n < 2 ^ 32
    → read_unsigned (be_bytes 4 (n % 2 ^ 32) ++ rest) ≡ ok n rest
unfolding read_unsigned
read_unsigned_lem n rest h =
    let e : n % 2 ^ 32 ≡ n = omega (arith, h) in rw (e, signed_word n rest h, wrap-signed n h) refl

pub read_zone_lem :
    (n : ℕ) (rest : List ℕ)
    → n < 65536
    → read_zone false (be_bytes 4 (n % 2 ^ 32) ++ rest) ≡ ok n rest
unfolding read_zone skip_offset
read_zone_lem n rest h =
    let e : n % 2 ^ 32 ≡ n = omega (arith, h) in
    rw (e, signed_word n rest (omega (arith, h)), wrap-signed_zone n h) refl

pub read_big :
    (v : ℤ) (rest : List ℕ)
    → InSigned (2 ^ 64) v
    → read_bytes 8 (be_bytes 8 (wrap (2 ^ 64) v) ++ rest) ≡ ok (be_bytes 8 (wrap (2 ^ 64) v)) rest
read_big v rest h =
    read_sized 8 (be_bytes 8 (wrap (2 ^ 64) v)) rest (length-be_bytes 8 (wrap (2 ^ 64) v))

pub big_value :
    (v : ℤ) → InSigned (2 ^ 64) v → signed (2 ^ 64) (be_value 0 (be_bytes 8 (wrap (2 ^ 64) v))) ≡ v
big_value v h =
    ap (λ k. signed (2 ^ 64) k) (be_value-be_bytes 8 (wrap (2 ^ 64) v) (wrap64-lt v))
    ∙ signed-wrap64 v h

be_value-append :
    (acc : ℕ) (xs ys : List ℕ) → be_value acc (xs ++ ys) ≡ be_value (be_value acc xs) ys
be_value-append acc [] ys = refl
be_value-append acc (x ∷ xs) ys = be_value-append (acc * 256 + x) xs ys

be_value_low : (h l : ℕ) → l < 2 ^ 64 → be_value h (be_bytes 8 l) ≡ h * 2 ^ 64 + l
be_value_low h l k = omega (arith, k)

abbrev pub halves : ℤ → List ℕ
halves v = be_bytes 8 (wrap (2 ^ 64) (high_part v)) ++ be_bytes 8 (wrap (2 ^ 64) v)

signed_halves :
    (v : ℤ)
    → fits_int64 (high_part v) ≡ true
    → signed (2 ^ 128) (wrap (2 ^ 64) (high_part v) * 2 ^ 64 + wrap (2 ^ 64) v) ≡ v
signed_halves (pos n) h = ground arith
signed_halves (negsuc n) h = ground arith

pub int128_value-halves : (v : ℤ) → fits_int64 (high_part v) ≡ true → int128_value (halves v) ≡ v
unfolding int128_value
int128_value-halves v h =
    let hi = wrap (2 ^ 64) (high_part v) in
    let lo = wrap (2 ^ 64) v in
    let e : be_value 0 (halves v) ≡ hi * 2 ^ 64 + lo =
      be_value-append 0 (be_bytes 8 hi) (be_bytes 8 lo)
      ∙ ap (λ k. be_value k (be_bytes 8 lo)) (be_value-be_bytes 8 hi (wrap64-lt (high_part v)))
      ∙ be_value_low hi lo (wrap64-lt v) in
    rw e (signed_halves v h)

pub length-halves : (v : ℤ) → length (halves v) ≡ 16
length-halves v =
    let hi = wrap (2 ^ 64) (high_part v) in
    let lo = wrap (2 ^ 64) v in
    omega (
      arith,
      length-append (be_bytes 8 hi) (be_bytes 8 lo),
      length-be_bytes 8 hi,
      length-be_bytes 8 lo,
    )

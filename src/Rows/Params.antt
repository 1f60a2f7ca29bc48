-- ===== src/Rows/Params.antt =====
-- packages/core/src/protocol/msgcodec.ts: parameters as a message and its BLR.
-- A `number` carries its value if it is an integer, and its IEEE 754 bytes. Dates are the days and
-- the fractions that encodeTimestamp computes, `zoned` also what zoneToTzId returns, or throws. The
-- message is the items written, which Xdr.Items shows to be their encodings in order. The text
-- codec is a parameter.
use fast_firebird.Base.{
  ℕ, zero, suc, ◌+◌, ◌-◌, ◌*◌, ◌/◌, ◌%◌, ◌^◌, Bool, true, false, Option, none, some, List, [], ◌∷◌,
  ◌++◌, ◌==◌, ltb, leb, if◌then◌else◌, length, get_or, set, replicate, ℤ, pos, negsuc, wrap,
  be_bytes, ◌>>=◌, codes,
}
use fast_firebird.Wire.Xdr.{pad4, fits_int64}
use fast_firebird.Wire.Xdr.Items.{Item, int, uint, big_int, fixed, bare}
use fast_firebird.Rows.{byte, word, code, blr_header, blr_footer, null_slot}
use fast_firebird.Rows.Reading.{is_safe}

pub data ParamValue {ℓ} (S : Type ℓ) : Type ℓ where
  null : ParamValue S
  string_ : S → ParamValue S
  bool : Bool → ParamValue S
  number : Option ℤ → List ℕ → ParamValue S
  bigint : ℤ → ParamValue S
  zoned : ℤ → ℕ → Option ℕ → ParamValue S
  date : ℤ → ℕ → ParamValue S
  blob_ref : List ℕ → ParamValue S
  dec_float : List ℕ → ParamValue S
  buffer : List ℕ → ParamValue S
  unsupported : ParamValue S

-- The type that is written, with its BLR and the items of the value; `none` throws.
abbrev pub Encoded : Type 0
Encoded = Option (List ℕ × List Item)

abbrev pub is_int32 : ℤ → Bool
is_int32 (pos n) = leb n 2147483647
is_int32 (negsuc n) = leb n 2147483647

-- `bytes.length > 0xffff` throws.
unfoldable pub encode_fixed : List ℕ → List ℕ → Encoded
unfolding word
encode_fixed bytes blr =
    if ltb 65535 (length bytes)
    then none
    else some (word (pos (length bytes)) (code 14 blr), fixed bytes ∷ [])

unfoldable pub encode_double : List ℕ → List ℕ → Encoded
encode_double bytes blr = some (code 27 blr, bare bytes ∷ [])

unfoldable pub encode_number : Option ℤ → List ℕ → List ℕ → Encoded
unfolding encode_double byte
encode_number none bytes blr = encode_double bytes blr
encode_number (some v) bytes blr =
    if is_int32 v
    then some (code 0 (code 8 blr), int v ∷ [])
    else if is_safe v
    then some (code 0 (code 16 blr), big_int v ∷ [])
    else encode_double bytes blr

-- `v >> 64n`
abbrev pub high_part : ℤ → ℤ
high_part (pos n) = pos (n / 2 ^ 64)
high_part (negsuc n) = negsuc (n / 2 ^ 64)

-- writeBigInt64BE throws where the upper half does not fit.
unfoldable pub encode_bigint : ℤ → List ℕ → Encoded
unfolding byte
encode_bigint v blr =
    if fits_int64 v
    then some (code 0 (code 16 blr), big_int v ∷ [])
    else if fits_int64 (high_part v)
    then some (
      code 0 (code 26 blr),
      bare (be_bytes 8 (wrap (2 ^ 64) (high_part v)) ++ be_bytes 8 (wrap (2 ^ 64) v)) ∷ [],
    )
    else none

unfoldable pub encode_bool : Bool → List ℕ → Encoded
unfolding word
encode_bool b blr =
    let bytes = if b then codes "true" else codes "false" in
    some (word (pos (length bytes)) (code 14 blr), fixed bytes ∷ [])

module _ {ℓ} {S : Type ℓ} (encode_text : ℕ → S → List ℕ) where
  -- A round of the loop for the i-th value, null or not, up to its nullSlot.
  unfoldable pub encode_value : ℕ → ParamValue S → List ℕ → Encoded
  unfolding encode_fixed encode_number encode_bigint encode_bool byte word
  encode_value i null blr = some (word (pos 1) (code 14 blr), [])
  encode_value i (string_ s) blr = encode_fixed (encode_text i s) blr
  encode_value i (bool b) blr = encode_bool b blr
  encode_value i (number v bytes) blr = encode_number v bytes blr
  encode_value i (bigint v) blr = encode_bigint v blr
  encode_value i (zoned days fractions none) blr = none
  encode_value i (zoned days fractions (some id)) blr =
      some (code 29 blr, int days ∷ uint fractions ∷ uint id ∷ [])
  encode_value i (date days fractions) blr = some (code 35 blr, int days ∷ uint fractions ∷ [])
  encode_value i (blob_ref id) blr = some (code 0 (code 9 blr), bare id ∷ [])
  encode_value i (dec_float bytes) blr =
      some (code (if length bytes == 8 then 24 else 25) blr, bare bytes ∷ [])
  encode_value i (buffer bytes) blr = encode_fixed bytes blr
  encode_value i unsupported blr = none

-- `b | (1 << k)`
unfoldable pub or_bit : ℕ → ℕ → ℕ
or_bit zero b = if b % 2 == 1 then b else b + 1
or_bit (suc k) b = 2 * or_bit k (b / 2) + b % 2

unfoldable pub set_bit : List ℕ → ℕ → List ℕ
unfolding or_bit
set_bit bitmap i = set bitmap (i / 8) (or_bit (i % 8) (get_or bitmap (i / 8) 0))

abbrev pub is_null {ℓ} : {S : Type ℓ} → ParamValue S → Bool
is_null null = true
is_null _ = false

unfoldable pub bitmap_items : List ℕ → List Item
bitmap_items bitmap =
    bare bitmap ∷ replicate (pad4 (length bitmap) - length bitmap) (bare (255 ∷ []))

module _ {ℓ} {S : Type ℓ} (encode_text : ℕ → S → List ℕ) where
  -- The loop from the i-th value on: the BLR, the bitmap, and the items of the values.
  unfoldable pub encode_from :
      ℕ → List (ParamValue S) → List ℕ → List ℕ → Option (List ℕ × List ℕ × List Item)
  unfolding encode_value set_bit null_slot
  encode_from i [] blr bitmap = some (blr, bitmap, [])
  encode_from i (v ∷ values) blr bitmap = encode_value encode_text i v blr >>= λ e.
      encode_from (suc i) values (null_slot e.0) (if is_null v then set_bit bitmap i else bitmap)
      >>= λ later. some (later.0, later.1, e.1 ++ later.2)

  -- The BLR, and the items of the message: the bitmap, its padding, the values.
  unfoldable pub encode_params : List (ParamValue S) → Option (List ℕ × List Item)
  unfolding encode_from bitmap_items blr_header blr_footer
  encode_params values =
      encode_from 0 values (blr_header (length values) []) (replicate ((length values + 7) / 8) 0)
      >>= λ e. some (blr_footer e.0, bitmap_items e.1 ++ e.2)

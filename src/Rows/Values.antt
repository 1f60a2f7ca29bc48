-- ===== src/Rows/Values.antt =====
-- The value read from a column is the one that the parameter was sent as.
use fast_firebird.Base.{
  ℕ, ◌%◌, ◌^◌, ◌≡◌, refl, ap, true, false, Option, none, some, List, [], ◌∷◌, ◌++◌, ◌==◌, length, ℤ,
  pos, negsuc, wrap, InSigned, be_bytes, signed, be_value, append-nil, if◌then◌else◌, arith,
  Bool-cases, inl, inr, codes,
}
use fast_firebird.Wire.Xdr.{fits_int64}
use fast_firebird.Wire.Xdr.Items.{Item, int, uint, big_int, fixed, bare, encoding, encodings}
use fast_firebird.Wire.Responses.{ok, ◌then◌, read_bytes, read_int32}
use fast_firebird.Wire.Responses.Encoding.{word, read_int32-word}
use fast_firebird.Info.Describe.{SqlVarDesc, new_var}
use fast_firebird.Rows.{int64, int128, timestamp}
use fast_firebird.Rows.Reading.{
  Value, Int64As, TzMode, as_instant, as_zoned, is_safe, apply_scale, read_padded, read_unsigned,
  read_zone, int128_value, text_length, read_timestamp_tz, read_text, read_int, read_typed,
}
use fast_firebird.Rows.Params.{
  ParamValue, is_int32, high_part, is_null, encode_fixed, encode_double, encode_number,
  encode_bigint, encode_bool, encode_value,
}
use fast_firebird.Rows.Own.{own_type, own_desc, own_value, text_value, zoned_value, IsMade}
use fast_firebird.Rows.Pieces.{
  read_padded_lem, read_sized, read_unsigned_lem, read_zone_lem, read_big, big_value, halves,
  int128_value-halves, length-halves,
}

is_int32-InSigned : (v : ℤ) → is_int32 v ≡ true → InSigned (2 ^ 32) v
is_int32-InSigned (pos n) h = ground arith
is_int32-InSigned (negsuc n) h = ground arith

is_safe-InSigned : (v : ℤ) → is_safe v ≡ true → InSigned (2 ^ 64) v
is_safe-InSigned (pos n) h = ground arith
is_safe-InSigned (negsuc n) h = ground arith

fits_int64-InSigned : (v : ℤ) → fits_int64 v ≡ true → InSigned (2 ^ 64) v
fits_int64-InSigned (pos n) h = ground arith
fits_int64-InSigned (negsuc n) h = ground arith

text_step :
    (codec : Option (List ℕ → Value)) (int64_as : Int64As) (tz_mode : TzMode)
    (bytes bs rest : List ℕ)
    → read_padded (length bytes) bs ≡ ok bytes rest
    → read_text codec int64_as tz_mode (length bytes) bs ≡ ok (text_value codec bytes) rest
unfolding read_text
text_step none int64_as tz_mode bytes bs rest e = rw e refl
text_step (some decode) int64_as tz_mode bytes bs rest e = rw e refl

int64_step :
    (codec : Option (List ℕ → Value)) (int64_as : Int64As) (tz_mode : TzMode) (d : SqlVarDesc)
    (b bs rest : List ℕ) (v : ℤ)
    → read_bytes 8 bs ≡ ok b rest
    → signed (2 ^ 64) (be_value 0 b) ≡ v
    → d.scale ≡ pos 0
    → read_typed codec int64_as tz_mode d int64 bs ≡ ok (apply_scale v (pos 0) int64_as) rest
unfolding read_typed
int64_step codec int64_as tz_mode d b bs rest v e f g =
    rw (e, g, read_typed) (ap (λ k. ok (apply_scale k (pos 0) int64_as) rest) f)

int128_step :
    (codec : Option (List ℕ → Value)) (int64_as : Int64As) (tz_mode : TzMode) (d : SqlVarDesc)
    (b bs rest : List ℕ) (v : ℤ)
    → read_bytes 16 bs ≡ ok b rest
    → int128_value b ≡ v
    → d.scale ≡ pos 0
    → read_typed codec int64_as tz_mode d int128 bs ≡ ok (Value.bigint v) rest
unfolding read_typed apply_scale
int128_step codec int64_as tz_mode d b bs rest v e f g =
    rw (e, g, read_typed) (ap (λ k. ok (Value.bigint k) rest) f)

date_step :
    (codec : Option (List ℕ → Value)) (int64_as : Int64As) (tz_mode : TzMode) (d : SqlVarDesc)
    (bs rest rest' : List ℕ) (days : ℤ) (fractions : ℕ)
    → read_int32 bs ≡ ok days rest
    → read_unsigned rest ≡ ok fractions rest'
    → read_typed codec int64_as tz_mode d timestamp bs ≡ ok (Value.timestamp_ days fractions) rest'
unfolding read_typed
date_step codec int64_as tz_mode d bs rest rest' days fractions e f = rw (e, f, read_typed) refl

zoned_step :
    (codec : Option (List ℕ → Value)) (int64_as : Int64As) (tz_mode : TzMode)
    (bs rest rest' rest'' : List ℕ) (days : ℤ) (fractions id : ℕ)
    → read_int32 bs ≡ ok days rest
    → read_unsigned rest ≡ ok fractions rest'
    → read_zone false rest' ≡ ok id rest''
    → read_timestamp_tz codec int64_as tz_mode false bs
      ≡ ok (zoned_value tz_mode days fractions (some id)) rest''
unfolding read_timestamp_tz
zoned_step codec int64_as as_instant bs rest rest' rest'' days fractions id e f g =
    rw (e, f, g) refl
zoned_step codec int64_as as_zoned bs rest rest' rest'' days fractions id e f g = rw (e, f, g) refl

module _ (codec : Option (List ℕ → Value)) (int64_as : Int64As) (tz_mode : TzMode) where
  text_read :
      (bytes rest : List ℕ)
      → read_text codec int64_as tz_mode (length bytes) (encodings (fixed bytes ∷ []) ++ rest)
        ≡ ok (text_value codec bytes) rest
  text_read bytes rest =
      text_step codec int64_as tz_mode bytes (encodings (fixed bytes ∷ []) ++ rest) rest
        (rw (append-nil (encoding (fixed bytes))) (read_padded_lem bytes rest 0))

  int_read :
      (v : ℤ) (rest : List ℕ)
      → is_int32 v ≡ true
      → read_int codec int64_as tz_mode (pos 0) (encodings (int v ∷ []) ++ rest)
        ≡ ok (Value.number v) rest
  unfolding read_int apply_scale
  int_read v rest h =
      let i : InSigned (2 ^ 32) v = is_int32-InSigned v h in
      rw (append-nil (encoding (int v)), read_int32-word v rest i) refl

  int64_read :
      (d : SqlVarDesc) (v : ℤ) (rest : List ℕ)
      → InSigned (2 ^ 64) v
      → d.scale ≡ pos 0
      → read_typed codec int64_as tz_mode d int64 (encodings (big_int v ∷ []) ++ rest)
        ≡ ok (apply_scale v (pos 0) int64_as) rest
  int64_read d v rest h e =
      int64_step codec int64_as tz_mode d (be_bytes 8 (wrap (2 ^ 64) v)) _ rest v
        (read_big v rest h) (big_value v h) e

  sized_read :
      (n : ℕ) (f : List ℕ → Value) (b rest : List ℕ)
      → length b ≡ n
      → (read_bytes n (encodings (bare b ∷ []) ++ rest) then λ raw r. ok (f raw) r) ≡ ok (f b) rest
  sized_read n f b rest h = rw (append-nil b, read_sized n b rest h) refl

module _ {ℓ} {S : Type ℓ} (encode_text : ℕ → S → List ℕ) (codec : Option (List ℕ → Value))
    (int64_as : Int64As) (tz_mode : TzMode) where
  abbrev pub Reads : ℕ → ParamValue S → List Item → List ℕ → Type 0
  Reads i v items rest =
      read_typed codec int64_as tz_mode (own_desc encode_text i v) (own_type encode_text v)
        (encodings items ++ rest)
      ≡ ok (own_value encode_text codec int64_as tz_mode i v) rest

  -- What is written for a parameter that is not null is read from a column of its own type.
  pub value_Reads :
      (i : ℕ) (v : ParamValue S) (blr rest : List ℕ) (x : List ℕ × List Item)
      → encode_value encode_text i v blr ≡ some x
      → is_null v ≡ false
      → IsMade v
      → Reads i v x.1 rest
  unfolding read_typed encode_value text_length encode_fixed encode_bool encode_number encode_bigint
      encode_double
  value_Reads i ParamValue.null blr rest x h k m = absurd (cc)
  value_Reads i (ParamValue.string_ s) blr rest x h k m =
      let e : x.1 ≡ fixed (encode_text i s) ∷ [] = ground arith in
      rw e (text_read codec int64_as tz_mode (encode_text i s) rest)
  value_Reads i (ParamValue.bool true) blr rest x h k m =
      let e : x.1 ≡ fixed (codes "true") ∷ [] = ground arith in
      rw e (text_read codec int64_as tz_mode (codes "true") rest)
  value_Reads i (ParamValue.bool false) blr rest x h k m =
      let e : x.1 ≡ fixed (codes "false") ∷ [] = ground arith in
      rw e (text_read codec int64_as tz_mode (codes "false") rest)
  value_Reads i (ParamValue.number none bytes) blr rest x h k m =
      let e : x.1 ≡ bare bytes ∷ [] = ground arith in
      rw e (sized_read codec int64_as tz_mode 8 Value.float64 bytes rest m)
  value_Reads i (ParamValue.number (some v) bytes) blr rest x h k m =
      elim (Bool-cases (is_int32 v)) [
        | inl f ↦
            let e : x.1 ≡ int v ∷ [] = ground arith in
            rw (e, f) (int_read codec int64_as tz_mode v rest f)
        | inr f ↦ elim (Bool-cases (is_safe v)) [
          | inl g ↦
              let e : x.1 ≡ big_int v ∷ [] = ground arith in
              rw (e, f, g)
                (int64_read codec int64_as tz_mode new_var v rest (is_safe-InSigned v g) refl)
          | inr g ↦
              let e : x.1 ≡ bare bytes ∷ [] = ground arith in
              rw (e, f, g) (sized_read codec int64_as tz_mode 8 Value.float64 bytes rest m)
        ]
      ]
  value_Reads i (ParamValue.bigint v) blr rest x h k m = elim (Bool-cases (fits_int64 v)) [
    | inl f ↦
        let e : x.1 ≡ big_int v ∷ [] = ground arith in
        rw (e, f) (int64_read codec int64_as tz_mode new_var v rest (fits_int64-InSigned v f) refl)
    | inr f ↦
        let g : fits_int64 (high_part v) ≡ true = ground arith in
        let e : x.1 ≡ bare (halves v) ∷ [] = ground arith in
        rw (e, f, append-nil (halves v))
          (int128_step codec int64_as tz_mode new_var (halves v) (halves v ++ rest) rest v
            (read_sized 16 (halves v) rest (length-halves v)) (int128_value-halves v g) refl)
  ]
  value_Reads i (ParamValue.zoned days fractions none) blr rest x h k m = cc
  value_Reads i (ParamValue.zoned days fractions (some id)) blr rest x h k m =
      let e : x.1 ≡ int days ∷ uint fractions ∷ uint id ∷ [] = ground arith in
      let zone = be_bytes 4 (id % 2 ^ 32) ++ rest in
      let frac = be_bytes 4 (fractions % 2 ^ 32) ++ zone in
      rw e (
        zoned_step codec int64_as tz_mode (word days frac) frac zone rest days fractions id
          (read_int32-word days frac (m.0)) (read_unsigned_lem fractions zone (m.1))
          (read_zone_lem id rest (m.2)))
  value_Reads i (ParamValue.date days fractions) blr rest x h k m =
      let e : x.1 ≡ int days ∷ uint fractions ∷ [] = ground arith in
      let frac = be_bytes 4 (fractions % 2 ^ 32) ++ rest in
      rw e (
        date_step codec int64_as tz_mode new_var (word days frac) frac rest days fractions
          (read_int32-word days frac (m.0)) (read_unsigned_lem fractions rest (m.1)))
  value_Reads i (ParamValue.blob_ref id) blr rest x h k m =
      let e : x.1 ≡ bare id ∷ [] = ground arith in
      rw e (sized_read codec int64_as tz_mode 8 (λ b. Value.blob_ref b (pos 0)) id rest m)
  value_Reads i (ParamValue.dec_float bytes) blr rest x h k m =
      let e : x.1 ≡ bare bytes ∷ [] = ground arith in
      elim (Bool-cases (length bytes == 8)) [
        | inl f ↦
            rw (e, f) (sized_read codec int64_as tz_mode 8 Value.decimal bytes rest (ground arith))
        | inr f ↦
            rw (e, f) (sized_read codec int64_as tz_mode 16 Value.decimal bytes rest (ground arith))
      ]
  value_Reads i (ParamValue.buffer bytes) blr rest x h k m =
      let e : x.1 ≡ fixed bytes ∷ [] = ground arith in
      rw e (text_read codec int64_as tz_mode bytes rest)
  value_Reads i ParamValue.unsupported blr rest x h k m = cc

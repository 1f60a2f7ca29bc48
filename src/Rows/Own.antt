-- ===== src/Rows/Own.antt =====
-- The description of a column that holds what a parameter is sent as, and what is read from it.
use fast_firebird.Base.{
  ℕ, suc, ◌^◌, ◌<◌, ◌≡◌, ◌⊎◌, Option, none, some, List, [], ◌∷◌, ◌==◌, if◌then◌else◌, length, ℤ,
  pos, InSigned, codes, ◌>>=◌,
}
use fast_firebird.Wire.Xdr.{fits_int64}
use fast_firebird.Wire.Responses.{Outcome}
use fast_firebird.Info.Describe.{SqlVarDesc, new_var}
use fast_firebird.Rows.{
  SqlType, text, long, double, timestamp, quad, int64, int128, timestamp_tz, dec16, dec34,
  type_code,
}
use fast_firebird.Rows.Reading.{
  Value, Int64As, TzMode, as_instant, as_zoned, is_safe, apply_scale, without_blanks,
  make_column_reader,
}
use fast_firebird.Rows.Params.{ParamValue, is_int32}

abbrev pub number_type : Option ℤ → SqlType
number_type none = double
number_type (some v) = if is_int32 v then long else if is_safe v then int64 else double

-- The readers of some columns, if each has one.
unfoldable pub make_readers :
    Option (List ℕ → Value)
    → Int64As
    → TzMode
    → List SqlVarDesc
    → Option (List (List ℕ → Outcome Value))
unfolding make_column_reader
make_readers codec int64_as tz_mode [] = some []
make_readers codec int64_as tz_mode (d ∷ descs) =
    make_column_reader codec int64_as tz_mode d >>= λ r.
    make_readers codec int64_as tz_mode descs >>= λ readers. some (r ∷ readers)

abbrev pub text_value : Option (List ℕ → Value) → List ℕ → Value
text_value none raw = Value.buffer raw
text_value (some decode) raw = without_blanks (decode raw)

abbrev pub number_value : Int64As → Option ℤ → List ℕ → Value
number_value int64_as none bytes = Value.float64 bytes
number_value int64_as (some v) bytes =
    if is_int32 v
    then Value.number v
    else if is_safe v
    then apply_scale v (pos 0) int64_as
    else Value.float64 bytes

abbrev pub zoned_value : TzMode → ℤ → ℕ → Option ℕ → Value
zoned_value tz_mode days fractions none = Value.null
zoned_value as_instant days fractions (some id) = Value.instant days fractions
zoned_value as_zoned days fractions (some id) = Value.zoned days fractions id

module _ {ℓ} {S : Type ℓ} (encode_text : ℕ → S → List ℕ) where
  abbrev pub own_type : ParamValue S → SqlType
  own_type ParamValue.null = text
  own_type (ParamValue.string_ s) = text
  own_type (ParamValue.bool b) = text
  own_type (ParamValue.number v bytes) = number_type v
  own_type (ParamValue.bigint v) = if fits_int64 v then int64 else int128
  own_type (ParamValue.zoned days fractions id) = timestamp_tz
  own_type (ParamValue.date days fractions) = timestamp
  own_type (ParamValue.blob_ref id) = quad
  own_type (ParamValue.dec_float bytes) = if length bytes == 8 then dec16 else dec34
  own_type (ParamValue.buffer bytes) = text
  own_type ParamValue.unsupported = text

  abbrev pub own_size : ℕ → ParamValue S → ℕ
  own_size i ParamValue.null = 1
  own_size i (ParamValue.string_ s) = length (encode_text i s)
  own_size i (ParamValue.bool b) = if b then 4 else 5
  own_size i (ParamValue.buffer bytes) = length bytes
  own_size i _ = 0

  abbrev pub own_desc : ℕ → ParamValue S → SqlVarDesc
  own_desc i v = record new_var {
    sql_type = pos (type_code (own_type v));
    size = pos (own_size i v);
  }

  abbrev pub own_descs : ℕ → List (ParamValue S) → List SqlVarDesc
  own_descs i [] = []
  own_descs i (v ∷ values) = own_desc i v ∷ own_descs (suc i) values

  module _ (codec : Option (List ℕ → Value)) (int64_as : Int64As) (tz_mode : TzMode) where
    abbrev pub own_value : ℕ → ParamValue S → Value
    own_value i ParamValue.null = Value.null
    own_value i (ParamValue.string_ s) = text_value codec (encode_text i s)
    own_value i (ParamValue.bool b) = text_value codec (if b then codes "true" else codes "false")
    own_value i (ParamValue.number v bytes) = number_value int64_as v bytes
    own_value i (ParamValue.bigint v) =
        if fits_int64 v then apply_scale v (pos 0) int64_as else Value.bigint v
    own_value i (ParamValue.zoned days fractions id) = zoned_value tz_mode days fractions id
    own_value i (ParamValue.date days fractions) = Value.timestamp_ days fractions
    own_value i (ParamValue.blob_ref id) = Value.blob_ref id (pos 0)
    own_value i (ParamValue.dec_float bytes) = Value.decimal bytes
    own_value i (ParamValue.buffer bytes) = text_value codec bytes
    own_value i ParamValue.unsupported = Value.null

    abbrev pub own_values : ℕ → List (ParamValue S) → List Value
    own_values i [] = []
    own_values i (v ∷ values) = own_value i v ∷ own_values (suc i) values

-- What the classes that a value is made of promise: the sizes of ids and of floats, days of 32
-- bits, fractions of 32 bits, zone ids of 16 bits.
abbrev pub IsMade {ℓ} : {S : Type ℓ} → ParamValue S → Type 0
IsMade (ParamValue.number v bytes) = length bytes ≡ 8
IsMade (ParamValue.zoned days fractions none) = Unit {0}
IsMade (ParamValue.zoned days fractions (some id)) =
    InSigned (2 ^ 32) days × (fractions < 2 ^ 32) × (id < 65536)
IsMade (ParamValue.date days fractions) = InSigned (2 ^ 32) days × (fractions < 2 ^ 32)
IsMade (ParamValue.blob_ref id) = length id ≡ 8
IsMade (ParamValue.dec_float bytes) = (length bytes ≡ 8) ⊎ (length bytes ≡ 16)
IsMade _ = Unit {0}

-- ===== src/Rows/Reading.antt =====
-- packages/core/src/protocol/msgcodec.ts: the readers of the columns, and rows.
-- A value keeps what JavaScript computes a number or a date from: `scaled v s` is v * 10 ^ s as a
-- double, the floats are their bytes, dates are days and fractions, and `decimal` is what
-- decodeDecFloat reads. A text codec is a parameter.
use mathlib.Core.List.{reverse}
use fast_firebird.Base.{
  ℕ, zero, suc, ◌+◌, ◌/◌, ◌%◌, ◌^◌, Bool, true, false, not, Option, none, some, List, [], ◌∷◌, ◌==◌,
  leb, if◌then◌else◌, length, take, get_or, ℤ, pos, negsuc, wrap, signed, be_value,
}
use fast_firebird.Wire.Xdr.{pad4}
use fast_firebird.Wire.Responses.{Outcome, ok, ◌then◌, read_bytes, read_int32, read_opaque, is_code}
use fast_firebird.Info.Describe.{SqlVarDesc}
use fast_firebird.Rows.{
  SqlType, text, varying, short, long, float, double, d_float, timestamp, blob, array, quad,
  type_time, type_date, int64, int128, timestamp_tz_ex, time_tz_ex, timestamp_tz, time_tz, dec16,
  dec34, boolean, null_type, case_of,
}

pub data Value : Type 0 where
  null : Value
  buffer string_ : List ℕ → Value
  number bigint : ℤ → Value
  scaled : ℤ → ℤ → Value
  float32 float64 decimal : List ℕ → Value
  bool : Bool → Value
  date : ℤ → Value
  time : ℕ → Value
  timestamp_ : ℤ → ℕ → Value
  instant : ℤ → ℕ → Value
  zoned : ℤ → ℕ → ℕ → Value
  time_instant : ℕ → Value
  zoned_time : ℕ → ℕ → Value
  blob_ref : List ℕ → ℤ → Value

pub data Int64As : Type 0 where
  auto as_bigint as_number : Int64As

pub data TzMode : Type 0 where
  as_instant as_zoned : TzMode

abbrev pub is_safe : ℤ → Bool
is_safe (pos n) = leb n 9007199254740991
is_safe (negsuc n) = leb (n + 1) 9007199254740991

unfoldable pub apply_scale : ℤ → ℤ → Int64As → Value
apply_scale v scale mode = if not (is_code scale 0) then scaled v scale else elim mode [
  | as_bigint ↦ bigint v
  | as_number ↦ number v
  | auto ↦ if is_safe v then number v else bigint v
]

unfoldable pub read_padded : ℕ → List ℕ → Outcome (List ℕ)
unfolding read_bytes
read_padded len bs =
    if len == 0 then ok [] bs else (read_bytes (pad4 len) bs then λ b rest. ok (take len b) rest)

-- `.replace(/ +$/, '')`
abbrev drop_blanks : List ℕ → List ℕ
drop_blanks [] = []
drop_blanks (c ∷ s) = if c == 32 then drop_blanks s else c ∷ s

abbrev pub without_blanks : Value → Value
without_blanks (string_ s) = string_ (reverse (drop_blanks (reverse s)))
without_blanks v = v

-- `(await w.readInt32()) >>> 0`
unfoldable pub read_unsigned : List ℕ → Outcome ℕ
unfolding read_int32
read_unsigned bs = read_int32 bs then λ n rest. ok (wrap (2 ^ 32) n) rest

unfoldable pub skip_offset : Bool → List ℕ → Outcome (List ℕ)
unfolding read_bytes
skip_offset extra bs = if extra then read_bytes 4 bs else ok [] bs

-- `(await w.readInt32()) & 0xffff`, behind which the extended types have an offset.
unfoldable pub read_zone : Bool → List ℕ → Outcome ℕ
unfolding read_int32 skip_offset
read_zone extra bs =
    read_int32 bs then λ id rest. skip_offset extra rest then λ _ rest'. ok (wrap 65536 id) rest'

-- `(b.readBigInt64BE(0) << 64n) | b.readBigUInt64BE(8)`
unfoldable pub int128_value : List ℕ → ℤ
int128_value b = signed (2 ^ 128) (be_value 0 b)

unfoldable pub text_length : ℤ → ℕ
text_length (pos n) = n
text_length (negsuc n) = 0

module _ (codec : Option (List ℕ → Value)) (int64_as : Int64As) (tz_mode : TzMode) where
  unfoldable pub read_timestamp_tz : Bool → List ℕ → Outcome Value
  unfolding read_int32 read_unsigned read_zone
  read_timestamp_tz extra bs = read_int32 bs then λ days rest. read_unsigned rest then λ frac rest'.
      read_zone extra rest' then λ id rest''.
      ok (elim tz_mode [ as_instant ↦ instant days frac | as_zoned ↦ zoned days frac id ]) rest''

  unfoldable pub read_time_tz : Bool → List ℕ → Outcome Value
  unfolding read_unsigned read_zone
  read_time_tz extra bs = read_unsigned bs then λ frac rest. read_zone extra rest then λ id rest'.
      ok (elim tz_mode [ as_instant ↦ time_instant frac | as_zoned ↦ zoned_time frac id ]) rest'

  unfoldable pub read_text : ℕ → List ℕ → Outcome Value
  unfolding read_padded
  read_text len bs = read_padded len bs then λ raw rest. elim codec [
    | none ↦ ok (buffer raw) rest
    | some decode ↦ ok (without_blanks (decode raw)) rest
  ]

  unfoldable pub read_varying : List ℕ → Outcome Value
  unfolding read_opaque
  read_varying bs = read_opaque bs then λ raw rest. elim codec [
    | none ↦ ok (buffer raw) rest
    | some decode ↦ ok (decode raw) rest
  ]

  unfoldable pub read_int : ℤ → List ℕ → Outcome Value
  unfolding read_int32 apply_scale
  read_int scale bs = read_int32 bs then λ n rest.
      ok (apply_scale n scale (if is_code scale 0 then as_number else int64_as)) rest

  -- The case of makeColumnReader for a type.
  unfoldable pub read_typed : SqlVarDesc → SqlType → List ℕ → Outcome Value
  unfolding read_timestamp_tz read_time_tz read_text read_varying read_int read_bytes read_int32
      read_unsigned apply_scale int128_value text_length
  read_typed d text bs = read_text (text_length d.size) bs
  read_typed d varying bs = read_varying bs
  read_typed d short bs = read_int d.scale bs
  read_typed d long bs = read_int d.scale bs
  read_typed d int64 bs = read_bytes 8 bs then λ b rest.
      ok (apply_scale (signed (2 ^ 64) (be_value 0 b)) d.scale int64_as) rest
  read_typed d int128 bs =
      read_bytes 16 bs then λ b rest. ok (apply_scale (int128_value b) d.scale as_bigint) rest
  read_typed d float bs = read_bytes 4 bs then λ b rest. ok (float32 b) rest
  read_typed d double bs = read_bytes 8 bs then λ b rest. ok (float64 b) rest
  read_typed d d_float bs = read_bytes 8 bs then λ b rest. ok (float64 b) rest
  read_typed d boolean bs = read_int32 bs then λ n rest. ok (bool (not (is_code n 0))) rest
  read_typed d type_date bs = read_int32 bs then λ days rest. ok (date days) rest
  read_typed d type_time bs = read_unsigned bs then λ frac rest. ok (time frac) rest
  read_typed d timestamp bs = read_int32 bs then λ days rest.
      read_unsigned rest then λ frac rest'. ok (timestamp_ days frac) rest'
  read_typed d timestamp_tz bs = read_timestamp_tz false bs
  read_typed d timestamp_tz_ex bs = read_timestamp_tz true bs
  read_typed d time_tz bs = read_time_tz false bs
  read_typed d time_tz_ex bs = read_time_tz true bs
  read_typed d blob bs = read_bytes 8 bs then λ id rest. ok (blob_ref id d.sub_type) rest
  read_typed d quad bs = read_bytes 8 bs then λ id rest. ok (blob_ref id d.sub_type) rest
  read_typed d array bs = read_bytes 8 bs then λ id rest. ok (blob_ref id d.sub_type) rest
  read_typed d dec16 bs = read_bytes 8 bs then λ b rest. ok (decimal b) rest
  read_typed d dec34 bs = read_bytes 16 bs then λ b rest. ok (decimal b) rest
  read_typed d null_type bs = ok null bs

  -- `none` is the error for a type that has no case, at the time the reader is made.
  unfoldable pub make_column_reader : SqlVarDesc → Option (List ℕ → Outcome Value)
  unfolding case_of read_typed
  make_column_reader d = elim (case_of d.sql_type) [ none ↦ none | some t ↦ some (read_typed d t) ]

-- `b & (1 << k)`, and the k-th bit of a bitmap.
unfoldable pub has_bit : ℕ → ℕ → Bool
has_bit zero b = b % 2 == 1
has_bit (suc k) b = has_bit k (b / 2)

unfoldable pub get_bit : List ℕ → ℕ → Bool
unfolding has_bit
get_bit bitmap i = has_bit (i % 8) (get_or bitmap (i / 8) 0)

-- The loop of readRow from column i on.
unfoldable pub row_from : List ℕ → ℕ → List (List ℕ → Outcome Value) → List ℕ → Outcome (List Value)
unfolding get_bit
row_from bitmap i [] bs = ok [] bs
row_from bitmap i (reader ∷ readers) bs = elim (get_bit bitmap i) [
  | true ↦ row_from bitmap (suc i) readers bs then λ row rest. ok (null ∷ row) rest
  | false ↦ reader bs then λ v rest.
      row_from bitmap (suc i) readers rest then λ row rest'. ok (v ∷ row) rest'
]

unfoldable pub read_row : List (List ℕ → Outcome Value) → List ℕ → Outcome (List Value)
unfolding read_padded row_from
read_row readers bs =
    read_padded ((length readers + 7) / 8) bs then λ bitmap rest. row_from bitmap 0 readers rest

-- ===== src/Rows.antt =====
-- packages/core/src/protocol/msgcodec.ts: descriptions of messages in BLR.
-- The codes of constants.ts (`Blr`, `SqlType`) are written as its numbers.
pub mod Reading
pub mod Params
pub mod Bits
pub mod Own
pub mod Declared
pub mod Pieces
pub mod Values
pub mod Columns
pub mod RoundTrip
mod Tests
use fast_firebird.Base.{
  ℕ, zero, suc, ◌*◌, ◌/◌, ◌^◌, Option, none, some, List, [], ◌∷◌, ◌++◌, ◌==◌, Bool, true, false,
  if◌then◌else◌, length, ℤ, pos, negsuc, wrap, ◌>>=◌,
}
use fast_firebird.Info.Describe.{SqlVarDesc}

pub data SqlType : Type 0 where
  text varying short long float double d_float timestamp blob array quad type_time : SqlType
  type_date int64 int128 timestamp_tz_ex time_tz_ex timestamp_tz time_tz dec16 dec34 : SqlType
  boolean null_type : SqlType

abbrev pub type_code : SqlType → ℕ
type_code text = 452
type_code varying = 448
type_code short = 500
type_code long = 496
type_code float = 482
type_code double = 480
type_code d_float = 530
type_code timestamp = 510
type_code blob = 520
type_code array = 540
type_code quad = 550
type_code type_time = 560
type_code type_date = 570
type_code int64 = 580
type_code int128 = 32752
type_code timestamp_tz_ex = 32748
type_code time_tz_ex = 32750
type_code timestamp_tz = 32754
type_code time_tz = 32756
type_code dec16 = 32760
type_code dec34 = 32762
type_code boolean = 32764
type_code null_type = 32766

abbrev all_types : List SqlType
all_types =
    text ∷ varying ∷ short ∷ long ∷ int64 ∷ int128 ∷ float ∷ double ∷ d_float ∷ boolean ∷ type_date
    ∷ type_time ∷ timestamp ∷ timestamp_tz ∷ timestamp_tz_ex ∷ time_tz ∷ time_tz_ex ∷ blob ∷ quad
    ∷ array ∷ dec16 ∷ dec34 ∷ null_type ∷ []

abbrev find_type : List SqlType → ℕ → Option SqlType
find_type [] n = none
find_type (t ∷ ts) n = if type_code t == n then some t else find_type ts n

-- The case of a `switch (desc.type)`; none is the default.
unfoldable pub case_of : ℤ → Option SqlType
case_of (pos n) = find_type all_types n
case_of (negsuc n) = none

-- `bytes.push(b & 0xff)`
unfoldable pub byte : ℤ → List ℕ → List ℕ
byte b bytes = bytes ++ wrap 256 b ∷ []

unfoldable pub word : ℤ → List ℕ → List ℕ
word w bytes = bytes ++ wrap 256 w ∷ (wrap 65536 w / 256) ∷ []

-- The codes of `Blr`.
abbrev pub code : ℕ → List ℕ → List ℕ
code n bytes = byte (pos n) bytes

unfoldable pub blr_header : ℕ → List ℕ → List ℕ
unfolding byte word
blr_header field_count b = word (pos (field_count * 2)) (code 0 (code 4 (code 2 (code 5 b))))

unfoldable pub blr_footer : List ℕ → List ℕ
unfolding byte
blr_footer b = code 76 (code 255 b)

unfoldable pub null_slot : List ℕ → List ℕ
unfolding byte
null_slot b = code 0 (code 7 b)

-- What the `switch` of buildOutputBlr writes for a field.
unfoldable pub field_blr : SqlVarDesc → SqlType → List ℕ → Option (List ℕ)
unfolding byte word
field_blr d text b = some (word d.size (code 14 b))
field_blr d varying b = some (word d.size (code 37 b))
field_blr d short b = some (byte d.scale (code 7 b))
field_blr d long b = some (byte d.scale (code 8 b))
field_blr d int64 b = some (byte d.scale (code 16 b))
field_blr d int128 b = some (byte d.scale (code 26 b))
field_blr d float b = some (code 10 b)
field_blr d double b = some (code 27 b)
field_blr d d_float b = some (code 27 b)
field_blr d type_date b = some (code 12 b)
field_blr d type_time b = some (code 13 b)
field_blr d timestamp b = some (code 35 b)
field_blr d blob b = some (code 0 (code 9 b))
field_blr d quad b = some (code 0 (code 9 b))
field_blr d array b = some (code 0 (code 9 b))
field_blr d boolean b = some (code 23 b)
field_blr d dec16 b = some (code 24 b)
field_blr d dec34 b = some (code 25 b)
field_blr d time_tz b = some (code 28 b)
field_blr d timestamp_tz b = some (code 29 b)
field_blr d time_tz_ex b = some (code 30 b)
field_blr d timestamp_tz_ex b = some (code 31 b)
field_blr d null_type b = none

-- The loop over the fields; `none` is the error for a type that has no case.
unfoldable pub fields_blr : List SqlVarDesc → List ℕ → Option (List ℕ)
unfolding case_of field_blr null_slot
fields_blr [] b = some b
fields_blr (d ∷ descs) b =
    case_of d.sql_type >>= λ t. field_blr d t b >>= λ b'. fields_blr descs (null_slot b')

unfoldable pub build_output_blr : List SqlVarDesc → Option (List ℕ)
unfolding blr_header fields_blr blr_footer
build_output_blr descs =
    fields_blr descs (blr_header (length descs) []) >>= λ b. some (blr_footer b)

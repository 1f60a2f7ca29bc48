-- ===== src/Params.antt =====
-- packages/core/src/protocol/buffers.ts: tagged parameter buffers. A builder is the bytes so far;
-- numbers are 32-bit integers, of which `&` and `>>` see the two's complement.
pub mod Tpb
pub mod Reading
mod Tests
use fast_firebird.Base.{
  ℕ, ◌+◌, ◌^◌, Option, none, some, List, [], ◌∷◌, ◌++◌, ltb, if◌then◌else◌, length, le_bytes, wrap,
  ℤ, ◌%◌,
}

abbrev pub Buffer : Type 0
Buffer = List ℕ

unfoldable pub new_buffer : Option ℕ → Buffer
new_buffer none = []
new_buffer (some version) = version ∷ []

unfoldable pub tag : ℕ → Buffer → Buffer
tag t parts = parts ++ t ∷ []

unfoldable pub bytes : ℕ → List ℕ → Buffer → Option Buffer
bytes t value parts =
    if ltb 255 (length value) then none else some (parts ++ t ∷ length value ∷ value)

-- `string` and `string2` take the encoded text.
unfoldable pub string : ℕ → List ℕ → Buffer → Option Buffer
string t encoded parts = bytes t encoded parts

unfoldable pub string2 : ℕ → List ℕ → Buffer → Option Buffer
string2 t encoded parts =
    if ltb 0xffff (length encoded)
    then none
    else some (parts ++ t ∷ le_bytes 2 (length encoded) ++ encoded)

unfoldable pub byte : ℕ → ℤ → Buffer → Buffer
byte t value parts = parts ++ t ∷ 1 ∷ wrap (2 ^ 32) value % 256 ∷ []

unfoldable pub int32 : ℕ → ℤ → Buffer → Buffer
int32 t value parts = parts ++ t ∷ 4 ∷ le_bytes 4 (wrap (2 ^ 32) value)

unfoldable pub raw_int32 : ℕ → ℤ → Buffer → Buffer
raw_int32 t value parts = parts ++ t ∷ le_bytes 4 (wrap (2 ^ 32) value)

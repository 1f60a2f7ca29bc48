-- ===== src/Wire/Xdr/Reader.antt =====
-- packages/core/src/protocol/xdr.ts: the reader over a buffer that is all there.
-- A read behind the end throws a RangeError: `none`. `subarray` never throws.
use fast_firebird.Base.{
  ℕ, ◌+◌, ◌-◌, ◌^◌, Option, none, some, List, leb, if◌then◌else◌, length, take, drop, ℤ, signed,
  be_value, ◌>>=◌,
}
use fast_firebird.Wire.Xdr.{pad4}

pub record XdrReader : Type 0 where
  pub buf : List ℕ
  pub at : ℕ

unfoldable pub remaining : XdrReader → ℕ
remaining r = length r.buf - r.at

-- A big-endian read of k bytes at `pos`.
unfoldable pub read_be : ℕ → XdrReader → Option (ℕ × XdrReader)
read_be k r =
    if leb (r.at + k) (length r.buf)
    then some (be_value 0 (take k (drop r.at r.buf)), record { buf = r.buf; at = r.at + k })
    else none

unfoldable pub int32 : XdrReader → Option (ℤ × XdrReader)
int32 r = do (n, r') ← read_be 4 r; some (signed (2 ^ 32) n, r')

unfoldable pub uint32 : XdrReader → Option (ℕ × XdrReader)
uint32 r = read_be 4 r

unfoldable pub big_int64 : XdrReader → Option (ℤ × XdrReader)
big_int64 r = do (n, r') ← read_be 8 r; some (signed (2 ^ 64) n, r')

-- `subarray` stops at the end of the buffer; `pos` moves over the padding all the same.
unfoldable pub opaque_fixed : ℕ → XdrReader → List ℕ × XdrReader
opaque_fixed len r = (take len (drop r.at r.buf), record { buf = r.buf; at = r.at + pad4 len })

unfoldable pub opaque : XdrReader → Option (List ℕ × XdrReader)
opaque r = do (len, r') ← uint32 r; some (opaque_fixed len r')

unfoldable pub string {ℓ} : {S : Type ℓ} → (List ℕ → S) → XdrReader → Option (S × XdrReader)
string decode r = do (bytes, r') ← opaque r; some (decode bytes, r')

unfoldable pub skip : ℕ → XdrReader → XdrReader
skip n r = record { buf = r.buf; at = r.at + n }

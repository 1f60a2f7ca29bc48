-- ===== src/Wire/Xdr.antt =====
-- packages/core/src/protocol/xdr.ts: the writer over a growing buffer (the reader is a child).
-- `Buffer.allocUnsafe(n)` returns n bytes of unknown content: the parameter `fresh`.
-- A read or a write out of range throws a RangeError: `none`. Strings go through the parameters
-- `encode` and `decode` (`Buffer.from(s, encoding)`, `toString(encoding)`).
pub mod Reader
pub mod Written
pub mod Items
pub mod RoundTrip
mod Tests
use fast_firebird.Base.{
  ℕ, zero, suc, ◌+◌, ◌-◌, ◌*◌, ◌/◌, ◌%◌, ◌^◌, ◌≤◌, ◌<◌, ◌≡◌, Bool, true, false, Option, none, some,
  List, [], ◌∷◌, ◌++◌, ltb, leb, ◌==◌, if◌then◌else◌, length, take, drop, replicate, ℤ, pos, negsuc,
  wrap, signed, be_bytes, be_value, copy_at, ◌>>=◌, ◌>>◌, require, arith,
}

-- `(n + 3) & ~3` while n + 3 < 2 ^ 31; the bits of a longer opaque would wrap around, and none is sent.
abbrev pub pad4 : ℕ → ℕ
pad4 n = (n + 3) / 4 * 4

unfoldable pub opaque_size : ℕ → ℕ
opaque_size len = 4 + pad4 len

pub record XdrWriter : Type 0 where
  pub buf : List ℕ
  pub at : ℕ

-- `while (size < need) size *= 2;` on fuel.
unfoldable pub grow : ℕ → ℕ → ℕ → ℕ
grow zero size need = size
grow (suc fuel) size need = elim (ltb size need) [ true ↦ grow fuel (size * 2) need | false ↦ size ]

-- `writeBigInt64BE` throws outside of the 64-bit range.
abbrev pub fits_int64 : ℤ → Bool
fits_int64 (pos n) = ltb n (2 ^ 63)
fits_int64 (negsuc n) = ltb n (2 ^ 63)

-- A write of some bytes at `pos`, which throws when they do not fit, and the new `pos`.
unfoldable pub put : List ℕ → XdrWriter → Option XdrWriter
put bytes w =
    if leb (w.at + length bytes) (length w.buf)
    then some (record { buf = copy_at w.buf w.at bytes; at = w.at + length bytes })
    else none

module _ (fresh : ℕ → List ℕ) where
  unfoldable pub new_writer : ℕ → XdrWriter
  new_writer initial_size = record { buf = fresh initial_size; at = 0 }

  unfoldable pub ensure : ℕ → XdrWriter → XdrWriter
  ensure n w = if leb (w.at + n) (length w.buf) then w else record {
    buf = copy_at (fresh (grow (w.at + n) (length w.buf * 2) (w.at + n))) 0 (take w.at w.buf);
    at = w.at;
  }

  unfoldable pub int32 : ℤ → XdrWriter → Option XdrWriter
  int32 v w = put (be_bytes 4 (wrap (2 ^ 32) v)) (ensure 4 w)

  unfoldable pub uint32 : ℤ → XdrWriter → Option XdrWriter
  uint32 v w = put (be_bytes 4 (wrap (2 ^ 32) v)) (ensure 4 w)

  unfoldable pub big_int64 : ℤ → XdrWriter → Option XdrWriter
  big_int64 v w = do require (fits_int64 v); put (be_bytes 8 (wrap (2 ^ 64) v)) (ensure 8 w)

  -- The data and the padding are two copies, and `pos` moves over both.
  unfoldable pub opaque_fixed : List ℕ → XdrWriter → XdrWriter
  opaque_fixed data_ w =
      let padded = pad4 (length data_) in
      let w' = ensure padded w in
      let buf1 = copy_at w'.buf w'.at data_ in
      let buf2 =
        if ltb (length data_) padded
        then copy_at buf1 (w'.at + length data_) (replicate (padded - length data_) 0)
        else buf1 in
      record { buf = buf2; at = w'.at + padded }

  unfoldable pub opaque : List ℕ → XdrWriter → Option XdrWriter
  opaque data_ w = do w' ← uint32 (pos (length data_)) w; some (opaque_fixed data_ w')

  unfoldable pub string {ℓ} : {S : Type ℓ} → (S → List ℕ) → S → XdrWriter → Option XdrWriter
  string encode s w = opaque (encode s) w

  unfoldable pub raw : List ℕ → XdrWriter → XdrWriter
  raw data_ w =
      let w' = ensure (length data_) w in
      record { buf = copy_at w'.buf w'.at data_; at = w'.at + length data_ }

  -- A copy of what was written; the writer starts again at 0.
  unfoldable pub finish : XdrWriter → List ℕ × XdrWriter
  finish w = (copy_at (fresh w.at) 0 (take w.at w.buf), record { buf = w.buf; at = 0 })

-- ===== src/Wire/Xdr/Items.antt =====
-- A packet as a sequence of items, each written by one method of the writer.
use fast_firebird.Base.{
  ℕ, ◌%◌, ◌^◌, ◌<◌, ◌≡◌, refl, sym, ap, ◌∙◌, Option, some, List, [], ◌∷◌, ◌++◌, append_assoc,
  append-nil, length, ℤ, pos, negsuc, wrap, be_bytes, InSigned, ◌>>=◌, take, arith, copy_at,
  take-copy_at-take, length-copy_at, take_all, lt→ltb,
}
use fast_firebird.Wire.Xdr.{
  XdrWriter, new_writer, int32, uint32, big_int64, opaque_fixed, opaque, raw, finish,
}
use fast_firebird.Wire.Xdr.Written.{
  IsValid, Appended, written, padding, ensured_put, opaque_fixed-Appended, raw-Appended,
}

pub data Item : Type 0 where
  int : ℤ → Item
  uint : ℕ → Item
  big_int : ℤ → Item
  fixed : List ℕ → Item
  counted : List ℕ → Item
  bare : List ℕ → Item

-- The method that writes the item.
abbrev pub write_item : (ℕ → List ℕ) → Item → XdrWriter → Option XdrWriter
write_item fresh (int v) w = int32 fresh v w
write_item fresh (uint n) w = uint32 fresh (pos n) w
write_item fresh (big_int v) w = big_int64 fresh v w
write_item fresh (fixed d) w = some (opaque_fixed fresh d w)
write_item fresh (counted d) w = opaque fresh d w
write_item fresh (bare d) w = some (raw fresh d w)

abbrev pub write_items : (ℕ → List ℕ) → List Item → XdrWriter → Option XdrWriter
write_items fresh [] w = some w
write_items fresh (i ∷ is) w = write_item fresh i w >>= write_items fresh is

-- The bytes of RFC 4506: big-endian words, data padded to four bytes.
abbrev pub encoding : Item → List ℕ
encoding (int v) = be_bytes 4 (wrap (2 ^ 32) v)
encoding (uint n) = be_bytes 4 (n % 2 ^ 32)
encoding (big_int v) = be_bytes 8 (wrap (2 ^ 64) v)
encoding (fixed d) = d ++ padding (length d)
encoding (counted d) = be_bytes 4 (length d % 2 ^ 32) ++ (d ++ padding (length d))
encoding (bare d) = d

abbrev pub encodings : List Item → List ℕ
encodings [] = []
encodings (i ∷ is) = encoding i ++ encodings is

-- What `writeBigInt64BE` accepts; the other methods accept everything.
abbrev pub IsWritable : Item → Type 0
IsWritable (big_int v) = InSigned (2 ^ 64) v
IsWritable i = Unit {0}

abbrev pub AllWritable : List Item → Type 0
AllWritable [] = Unit {0}
AllWritable (i ∷ is) = IsWritable i × AllWritable is

module _ (fresh : ℕ → List ℕ) (length-fresh : (n : ℕ) → length (fresh n) ≡ n) where
  big_int64-Appended :
      (v : ℤ) (w : XdrWriter)
      → InSigned (2 ^ 64) v
      → IsValid w
      → (w' : XdrWriter) × (big_int64 fresh v w ≡ some w')
        × Appended w (be_bytes 8 (wrap (2 ^ 64) v)) w'
  unfolding big_int64
  big_int64-Appended (pos n) w h v =
      let (w', done, a) =
        ensured_put fresh length-fresh 8 w (be_bytes 8 (wrap (2 ^ 64) (pos n))) refl v in
      (w', rw (lt→ltb n (2 ^ 63) h) done, a)
  big_int64-Appended (negsuc n) w h v =
      let (w', done, a) =
        ensured_put fresh length-fresh 8 w (be_bytes 8 (wrap (2 ^ 64) (negsuc n))) refl v in
      (w', rw (lt→ltb n (2 ^ 63) h) done, a)

  opaque-Appended :
      (d : List ℕ) (w : XdrWriter)
      → IsValid w
      → (w' : XdrWriter) × (opaque fresh d w ≡ some w') × Appended w (encoding (counted d)) w'
  unfolding opaque uint32
  opaque-Appended d w v =
      let (w1, done, one) =
        ensured_put fresh length-fresh 4 w (be_bytes 4 (length d % 2 ^ 32)) refl v in
      let two = opaque_fixed-Appended fresh length-fresh w1 d one.0 in
      (
        opaque_fixed fresh d w1,
        rw done,
        (
          two.0,
          two.1
              ∙ ap (λ t. t ++ (d ++ padding (length d))) one.1
              ∙ append_assoc (written w) (be_bytes 4 (length d % 2 ^ 32)) _,
        ),
      )

  write_item-Appended :
      (i : Item) (w : XdrWriter)
      → IsWritable i
      → IsValid w
      → (w' : XdrWriter) × (write_item fresh i w ≡ some w') × Appended w (encoding i) w'
  unfolding int32 uint32
  write_item-Appended (int v) w h k =
      ensured_put fresh length-fresh 4 w (be_bytes 4 (wrap (2 ^ 32) v)) refl k
  write_item-Appended (uint n) w h k =
      ensured_put fresh length-fresh 4 w (be_bytes 4 (n % 2 ^ 32)) refl k
  write_item-Appended (big_int v) w h k = big_int64-Appended v w h k
  write_item-Appended (fixed d) w h k =
      (opaque_fixed fresh d w, refl, opaque_fixed-Appended fresh length-fresh w d k)
  write_item-Appended (counted d) w h k = opaque-Appended d w k
  write_item-Appended (bare d) w h k = (raw fresh d w, refl, raw-Appended fresh length-fresh w d k)

  pub write_items-Appended :
      (is : List Item) (w : XdrWriter)
      → AllWritable is
      → IsValid w
      → (w' : XdrWriter) × (write_items fresh is w ≡ some w') × Appended w (encodings is) w'
  write_items-Appended [] w h k = (w, refl, (k, sym (append-nil (written w))))
  write_items-Appended (i ∷ is) w h k =
      let (w1, done, one) = write_item-Appended i w h.0 k in
      let (w2, done', two) = write_items-Appended is w1 h.1 one.0 in
      (
        w2,
        rw done done',
        (
          two.0,
          two.1 ∙ ap (λ t. t ++ encodings is) one.1 ∙ append_assoc (written w) (encoding i) _,
        ),
      )

  pub finish_lem : (w : XdrWriter) → IsValid w → (finish fresh w).0 ≡ written w
  unfolding finish
  finish_lem w v =
      sym (
        take_all w.at (copy_at (fresh w.at) 0 (take w.at w.buf))
          (omega (arith, length-copy_at (fresh w.at) 0 (take w.at w.buf), length-fresh w.at)))
      ∙ take-copy_at-take w.at (fresh w.at) w.buf v.within (omega (arith, length-fresh w.at))

  -- A new writer of nonzero size takes any sequence of items whose 64-bit numbers fit, with no
  -- error; `finish` returns their encodings in order, whatever memory `allocUnsafe` hands out,
  -- and leaves an empty writer that is fit for the next packet.
  pub finish-write_items :
      (initial_size : ℕ) (is : List Item)
      → 0 < initial_size
      → AllWritable is
      → (w : XdrWriter) × (write_items fresh is (new_writer fresh initial_size) ≡ some w)
        × ((finish fresh w).0 ≡ encodings is)
        × IsValid (finish fresh w).1
        × (written (finish fresh w).1 ≡ [])
  unfolding new_writer finish
  finish-write_items n is h k =
      let start : IsValid (new_writer fresh n) = record {
        room = omega (arith, length-fresh n);
        within = omega (arith, length-fresh n);
      } in
      let (w, done, a) = write_items-Appended is (new_writer fresh n) k start in
      (w, done, finish_lem w a.0 ∙ a.1, record { room = a.0.room; within = omega arith }, refl)

-- ===== src/Wire/Xdr/RoundTrip.antt =====
-- The reader gives back what the writer wrote, item by item.
use fast_firebird.Base.{
  ℕ, ◌+◌, ◌-◌, ◌%◌, ◌^◌, ◌<◌, ◌≡◌, refl, sym, ap, ◌∙◌, Option, some, List, [], ◌∷◌, ◌++◌,
  append_assoc, append-nil, length, ℤ, pos, wrap, be_bytes, be_value-be_bytes, InSigned,
  signed-wrap32, signed-wrap64, wrap32-lt, wrap64-lt, length-be_bytes, ◌>>=◌, take, drop, drop-drop,
  length-drop, length-append, length-replicate, take-append_length, drop-append_length, arith,
  le→leb, map, replicate,
}
use fast_firebird.Wire.Xdr.{XdrWriter, pad4, new_writer, finish}
use fast_firebird.Wire.Xdr.Reader
use fast_firebird.Wire.Xdr.Reader.{XdrReader}
use fast_firebird.Wire.Xdr.Written.{padding}
use fast_firebird.Wire.Xdr.Items.{
  Item, int, uint, big_int, fixed, counted, bare, encoding, encodings, write_items, AllWritable,
  finish-write_items,
}

-- What is read: a number, or bytes.
pub data Value : Type 0 where
  number : ℤ → Value
  bytes : List ℕ → Value

abbrev pub unread : XdrReader → List ℕ
unread r = drop r.at r.buf

-- The read that fits an item: its method, and for data of fixed size the length that both ends know.
pub data Shape : Type 0 where
  word unsigned_word double_word prefixed : Shape
  sized : ℕ → Shape

abbrev pub shape : Item → Shape
shape (int v) = word
shape (uint n) = unsigned_word
shape (big_int v) = double_word
shape (fixed d) = sized (length d)
shape (counted d) = prefixed
shape (bare d) = sized (length d)

abbrev pub value : Item → Value
value (int v) = number v
value (uint n) = number (pos n)
value (big_int v) = number v
value (fixed d) = bytes d
value (counted d) = bytes d
value (bare d) = bytes d

-- Numbers in the range of their word, data below 2 ^ 32 bytes, and bare data already aligned.
abbrev pub InRange : Item → Type 0
InRange (int v) = InSigned (2 ^ 32) v
InRange (uint n) = n < 2 ^ 32
InRange (big_int v) = InSigned (2 ^ 64) v
InRange (fixed d) = Unit {0}
InRange (counted d) = length d < 2 ^ 32
InRange (bare d) = length d % 4 ≡ 0

abbrev pub AllInRange : List Item → Type 0
AllInRange [] = Unit {0}
AllInRange (i ∷ is) = InRange i × AllInRange is

AllInRange-AllWritable : (is : List Item) → AllInRange is → AllWritable is
AllInRange-AllWritable [] h = tt
AllInRange-AllWritable (int v ∷ is) h = (tt, AllInRange-AllWritable is h.1)
AllInRange-AllWritable (uint n ∷ is) h = (tt, AllInRange-AllWritable is h.1)
AllInRange-AllWritable (big_int v ∷ is) h = (h.0, AllInRange-AllWritable is h.1)
AllInRange-AllWritable (fixed d ∷ is) h = (tt, AllInRange-AllWritable is h.1)
AllInRange-AllWritable (counted d ∷ is) h = (tt, AllInRange-AllWritable is h.1)
AllInRange-AllWritable (bare d ∷ is) h = (tt, AllInRange-AllWritable is h.1)

abbrev pub read_shape : Shape → XdrReader → Option (Value × XdrReader)
read_shape word r = Reader.int32 r >>= λ (v, r'). some (number v, r')
read_shape unsigned_word r = Reader.uint32 r >>= λ (n, r'). some (number (pos n), r')
read_shape double_word r = Reader.big_int64 r >>= λ (v, r'). some (number v, r')
read_shape (sized len) r = some (bytes (Reader.opaque_fixed len r).0, (Reader.opaque_fixed len r).1)
read_shape prefixed r = Reader.opaque r >>= λ (d, r'). some (bytes d, r')

abbrev pub read_shapes : List Shape → XdrReader → Option (List Value × XdrReader)
read_shapes [] r = some ([], r)
read_shapes (s ∷ ss) r =
    read_shape s r >>= λ (v, r'). read_shapes ss r' >>= λ (vs, r''). some (v ∷ vs, r'')

-- `r'` is `r` after k bytes.
abbrev After : ℕ → XdrReader → XdrReader
After k r = record { buf = r.buf; at = r.at + k }

unread-After :
    (r : XdrReader) (k : ℕ) (front rest : List ℕ)
    → length front ≡ k
    → unread r ≡ front ++ rest
    → unread (After k r) ≡ rest
unread-After r k front rest h e =
    drop-drop r.at k r.buf
    ∙ ap (drop k) e
    ∙ ap (λ n. drop n (front ++ rest)) (sym h)
    ∙ drop-append_length front rest

read_be_lem :
    (k n : ℕ) (r : XdrReader) (rest : List ℕ)
    → 0 < k
    → n < 256 ^ k
    → unread r ≡ be_bytes k n ++ rest
    → Reader.read_be k r ≡ some (n, After k r)
unfolding Reader.read_be
read_be_lem k n r rest h b e =
    let size : length r.buf - r.at ≡ k + length rest =
      sym (length-drop r.at r.buf)
      ∙ ap length e
      ∙ omega (arith, length-append (be_bytes k n) rest, length-be_bytes k n) in
    let front : take k (drop r.at r.buf) ≡ be_bytes k n =
      ap (take k) e
      ∙ ap (λ m. take m (be_bytes k n ++ rest)) (sym (length-be_bytes k n))
      ∙ take-append_length (be_bytes k n) rest in
    rw (le→leb (r.at + k) (length r.buf) (omega arith), front, be_value-be_bytes k n b)

padding_front : (d rest : List ℕ) → take (length d) ((d ++ padding (length d)) ++ rest) ≡ d
padding_front d rest = ap (take (length d)) (append_assoc d _ rest) ∙ take-append_length d _

length-padded : (d : List ℕ) → length (d ++ padding (length d)) ≡ pad4 (length d)
length-padded d = omega (
  arith,
  length-append d (padding (length d)),
  length-replicate {A = ℕ} (pad4 (length d) - length d) 0,
)

sized_lem :
    (d : List ℕ) (r : XdrReader) (rest : List ℕ)
    → unread r ≡ (d ++ padding (length d)) ++ rest
    → Reader.opaque_fixed (length d) r ≡ (d, After (pad4 (length d)) r)
unfolding Reader.opaque_fixed
sized_lem d r rest e = rw (ap (take (length d)) e ∙ padding_front d rest)

-- One item, at the front of what is unread.
pub read_shape-encoding :
    (i : Item) (r : XdrReader) (rest : List ℕ)
    → InRange i
    → unread r ≡ encoding i ++ rest
    → (r' : XdrReader) × (read_shape (shape i) r ≡ some (value i, r')) × (unread r' ≡ rest)
unfolding Reader.int32 Reader.uint32 Reader.big_int64 Reader.opaque
read_shape-encoding (int v) r rest h e = (
  After 4 r,
  rw (read_be_lem 4 (wrap (2 ^ 32) v) r rest (omega arith) (wrap32-lt v) e, signed-wrap32 v h),
  unread-After r 4 (be_bytes 4 (wrap (2 ^ 32) v)) rest refl e,
)
read_shape-encoding (uint n) r rest h e =
    let e' : unread r ≡ be_bytes 4 n ++ rest = rw (← below) e in
    (
      After 4 r,
      rw (read_be_lem 4 n r rest (omega arith) h e'),
      unread-After r 4 (be_bytes 4 n) rest refl e',
    )
  where
    below : n % 2 ^ 32 ≡ n
    below = omega arith
read_shape-encoding (big_int v) r rest h e = (
  After 8 r,
  rw (read_be_lem 8 (wrap (2 ^ 64) v) r rest (omega arith) (wrap64-lt v) e, signed-wrap64 v h),
  unread-After r 8 (be_bytes 8 (wrap (2 ^ 64) v)) rest refl e,
)
read_shape-encoding (fixed d) r rest h e = (
  After (pad4 (length d)) r,
  rw (sized_lem d r rest e),
  unread-After r (pad4 (length d)) (d ++ padding (length d)) rest (length-padded d) e,
)
read_shape-encoding (counted d) r rest h e =
    let body : List ℕ = (d ++ padding (length d)) ++ rest in
    let below : length d % 2 ^ 32 ≡ length d = omega arith in
    let e' : unread r ≡ be_bytes 4 (length d) ++ body =
      e
      ∙ append_assoc (be_bytes 4 (length d % 2 ^ 32)) _ rest
      ∙ ap (λ k. be_bytes 4 k ++ body) below in
    let e1 : unread (After 4 r) ≡ body = unread-After r 4 (be_bytes 4 (length d)) body refl e' in
    (
      After (pad4 (length d)) (After 4 r),
      rw (read_be_lem 4 (length d) r body (omega arith) h e', sized_lem d (After 4 r) rest e1),
      unread-After (After 4 r) (pad4 (length d)) (d ++ padding (length d)) rest (length-padded d)
          e1,
    )
read_shape-encoding (bare d) r rest h e =
    let aligned : pad4 (length d) - length d ≡ 0 = omega arith in
    let e' : unread r ≡ (d ++ padding (length d)) ++ rest =
      e ∙ ap (λ t. t ++ rest) (sym (append-nil d) ∙ ap (λ k. d ++ replicate k 0) (sym aligned)) in
    (
      After (pad4 (length d)) r,
      rw (sized_lem d r rest e'),
      unread-After r (pad4 (length d)) (d ++ padding (length d)) rest (length-padded d) e',
    )

pub read_shapes-encodings :
    (is : List Item) (r : XdrReader) (rest : List ℕ)
    → AllInRange is
    → unread r ≡ encodings is ++ rest
    → (r' : XdrReader) × (read_shapes (map shape is) r ≡ some (map value is, r'))
      × (unread r' ≡ rest)
read_shapes-encodings [] r rest h e = (r, refl, e)
read_shapes-encodings (i ∷ is) r rest h e =
    let (r1, one, e1) =
      read_shape-encoding i r (encodings is ++ rest) h.0 (e ∙ append_assoc (encoding i) _ rest) in
    let (r2, two, e2) = read_shapes-encodings is r1 rest h.1 e1 in (r2, rw (one, two), e2)

abbrev pub reader_of : List ℕ → XdrReader
reader_of buf = record { buf = buf; at = 0 }

module _ (fresh : ℕ → List ℕ) (length-fresh : (n : ℕ) → length (fresh n) ≡ n) where
  -- Items in range, written to a new writer of nonzero size and finished, are read back from the
  -- finished buffer as the same values, and nothing is left unread.
  pub read_shapes-finish :
      (initial_size : ℕ) (is : List Item)
      → 0 < initial_size
      → AllInRange is
      → (w : XdrWriter) × (write_items fresh is (new_writer fresh initial_size) ≡ some w)
        × (r : XdrReader) × (read_shapes (map shape is) (reader_of (finish fresh w).0)
            ≡ some (map value is, r))
        × (unread r ≡ [])
  read_shapes-finish n is h l =
      let (w, done, e, _, _) =
        finish-write_items fresh length-fresh n is h (AllInRange-AllWritable is l) in
      let (r, back, none_left) =
        read_shapes-encodings is (reader_of (finish fresh w).0) [] l
          (e ∙ sym (append-nil (encodings is))) in
      (w, done, r, back, none_left)

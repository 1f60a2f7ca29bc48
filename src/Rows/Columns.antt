-- ===== src/Rows/Columns.antt =====
-- The steps of reading a row, and the bits that the parameters set.
use fast_firebird.Base.{
  ℕ, zero, suc, ◌+◌, ◌*◌, ◌<◌, ◌≤◌, ◌≡◌, refl, ◌∙◌, sym, ap, true, false, Option, some, List, [],
  ◌∷◌, ◌++◌, ◌==◌, ◌||◌, ◌&&◌, length, replicate, append_assoc, if◌then◌else◌, arith, Bool-cases,
  inl, inr,
}
use fast_firebird.Wire.Xdr.Items.{Item, bare, encoding, encodings}
use fast_firebird.Wire.Responses.{Outcome, ok, ◌then◌}
use fast_firebird.Info.Describe.{SqlVarDesc}
use fast_firebird.Rows.{SqlType, case_of, null_slot}
use fast_firebird.Rows.Reading.{
  Value, Int64As, TzMode, read_typed, make_column_reader, get_bit, row_from,
}
use fast_firebird.Rows.Params.{ParamValue, is_null, set_bit, encode_from}
use fast_firebird.Rows.Bits.{get_bit-set_bit, length-set_bit}
use fast_firebird.Rows.Own.{make_readers}
use fast_firebird.Rows.Declared.{encode_step}

pub encodings-append : (xs ys : List Item) → encodings (xs ++ ys) ≡ encodings xs ++ encodings ys
encodings-append [] ys = refl
encodings-append (x ∷ xs) ys =
    ap (λ k. encoding x ++ k) (encodings-append xs ys)
    ∙ sym (append_assoc (encoding x) (encodings xs) (encodings ys))

pub encodings-replicate : (n b : ℕ) → encodings (replicate n (bare (b ∷ []))) ≡ replicate n b
encodings-replicate zero b = refl
encodings-replicate (suc n) b = ap (λ k. b ∷ k) (encodings-replicate n b)

reader_step :
    (codec : Option (List ℕ → Value)) (int64_as : Int64As) (tz_mode : TzMode) (d : SqlVarDesc)
    (t : SqlType)
    → case_of d.sql_type ≡ some t
    → make_column_reader codec int64_as tz_mode d ≡ some (read_typed codec int64_as tz_mode d t)
unfolding make_column_reader
reader_step codec int64_as tz_mode d t e = rw (e, make_column_reader) refl

pub make_step :
    (codec : Option (List ℕ → Value)) (int64_as : Int64As) (tz_mode : TzMode) (d : SqlVarDesc)
    (t : SqlType) (descs : List SqlVarDesc) (readers : List (List ℕ → Outcome Value))
    → case_of d.sql_type ≡ some t
    → make_readers codec int64_as tz_mode descs ≡ some readers
    → make_readers codec int64_as tz_mode (d ∷ descs)
      ≡ some (read_typed codec int64_as tz_mode d t ∷ readers)
unfolding make_readers
make_step codec int64_as tz_mode d t descs readers e f =
    rw (reader_step codec int64_as tz_mode d t e, f, make_readers) refl

pub null_step :
    (bitmap : List ℕ) (i : ℕ) (reader : List ℕ → Outcome Value)
    (readers : List (List ℕ → Outcome Value)) (bs rest : List ℕ) (row : List Value)
    → get_bit bitmap i ≡ true
    → row_from bitmap (suc i) readers bs ≡ ok row rest
    → row_from bitmap i (reader ∷ readers) bs ≡ ok (Value.null ∷ row) rest
unfolding row_from
null_step bitmap i reader readers bs rest row e f = rw (e, f, row_from) refl

pub value_step :
    (bitmap : List ℕ) (i : ℕ) (reader : List ℕ → Outcome Value)
    (readers : List (List ℕ → Outcome Value)) (bs rest rest' : List ℕ) (v : Value)
    (row : List Value)
    → get_bit bitmap i ≡ false
    → reader bs ≡ ok v rest
    → row_from bitmap (suc i) readers rest ≡ ok row rest'
    → row_from bitmap i (reader ∷ readers) bs ≡ ok (v ∷ row) rest'
unfolding row_from
value_step bitmap i reader readers bs rest rest' v row e f g = rw (e, f, g, row_from) refl

abbrev pub IsClear : ℕ → List ℕ → Type 0
IsClear i bitmap = (j : ℕ) → i ≤ j → get_bit bitmap j ≡ false

module _ {ℓ} {S : Type ℓ} (encode_text : ℕ → S → List ℕ) where
  abbrev pub marked : ℕ → ParamValue S → List ℕ → List ℕ
  marked i v bitmap = if is_null v then set_bit bitmap i else bitmap

  pub length-marked :
      (i : ℕ) (v : ParamValue S) (bitmap : List ℕ) → length (marked i v bitmap) ≡ length bitmap
  length-marked i v bitmap = elim (Bool-cases (is_null v)) [
    | inl e ↦ rw e (length-set_bit bitmap i)
    | inr e ↦ rw e refl
  ]

  pub get_bit-marked :
      (i j : ℕ) (v : ParamValue S) (bitmap : List ℕ)
      → i < 8 * length bitmap
      → get_bit (marked i v bitmap) j ≡ ((is_null v && j == i) || get_bit bitmap j)
  get_bit-marked i j v bitmap h = elim (Bool-cases (is_null v)) [
    | inl e ↦ rw e (get_bit-set_bit bitmap i j (omega (arith, h)))
    | inr e ↦ rw e refl
  ]

  -- The values from i on leave the bits below i, and the bitmap's length.
  pub bits_kept :
      (i : ℕ) (values : List (ParamValue S)) (blr bitmap : List ℕ) (e : List ℕ × List ℕ × List Item)
      → encode_from encode_text i values blr bitmap ≡ some e
      → i + length values ≤ 8 * length bitmap
      → (length e.1 ≡ length bitmap) × ((j : ℕ) → j < i → get_bit e.1 j ≡ get_bit bitmap j)
  unfolding encode_from
  bits_kept i [] blr bitmap e h k =
      let z : e.1 ≡ bitmap = cc (h) in (ap length z, λ j l. ap (λ b. get_bit b j) z)
  bits_kept i (v ∷ values) blr bitmap e h k =
      let (x, p, y, q, r) = encode_step encode_text i v values blr bitmap e h in
      let l = length-marked i v bitmap in
      let ih =
        bits_kept (suc i) values (null_slot x.0) (marked i v bitmap) y q (omega (arith, k, l)) in
      let w : e.1 ≡ y.1 = ap (λ z. z.1) r in
      (
        ap length w ∙ ih.0 ∙ l,
        λ j lt.
            ap (λ b. get_bit b j) w
            ∙ ih.1 j (omega arith)
            ∙ get_bit-marked i j v bitmap (omega (arith, k))
            ∙ ground arith,
      )

  pub marked-IsClear :
      (i : ℕ) (v : ParamValue S) (bitmap : List ℕ)
      → i < 8 * length bitmap
      → IsClear i bitmap
      → IsClear (suc i) (marked i v bitmap)
  marked-IsClear i v bitmap h c j l =
      let b = c j (omega arith) in get_bit-marked i j v bitmap h ∙ ground arith

-- ===== src/Rows/RoundTrip.antt =====
-- A message of parameters, read as a row of the columns that hold them.
use fast_firebird.Base.{
  ℕ, suc, ◌+◌, ◌-◌, ◌*◌, ◌/◌, ◌≤◌, ◌≡◌, refl, ◌∙◌, sym, ap, subst, true, Option, some, List, [],
  ◌∷◌, ◌++◌, length, replicate, length-replicate, append_assoc, arith, Bool-cases, inl, inr, All,
}
use fast_firebird.Wire.Xdr.{pad4}
use fast_firebird.Wire.Xdr.Items.{Item, encodings}
use fast_firebird.Wire.Responses.{Outcome, ok}
use fast_firebird.Rows.{null_slot, blr_header}
use fast_firebird.Rows.Reading.{
  Value, Int64As, TzMode, read_typed, read_padded, get_bit, row_from, read_row,
}
use fast_firebird.Rows.Params.{
  ParamValue, is_null, encode_value, encode_from, bitmap_items, encode_params,
}
use fast_firebird.Rows.Bits.{get_bit-replicate}
use fast_firebird.Rows.Own.{
  make_readers, own_type, own_desc, own_descs, own_value, own_values, IsMade,
}
use fast_firebird.Rows.Declared.{case_of-type_code, encode_step, encode_params_parts}
use fast_firebird.Rows.Pieces.{read_padded_lem}
use fast_firebird.Rows.Values.{value_Reads}
use fast_firebird.Rows.Columns.{
  encodings-append, encodings-replicate, make_step, null_step, value_step, IsClear, marked,
  length-marked, get_bit-marked, bits_kept, marked-IsClear,
}

module _ {ℓ} {S : Type ℓ} (encode_text : ℕ → S → List ℕ) where
  module _ (codec : Option (List ℕ → Value)) (int64_as : Int64As) (tz_mode : TzMode) where
    abbrev own_readers : ℕ → List (ParamValue S) → List (List ℕ → Outcome Value)
    own_readers i [] = []
    own_readers i (v ∷ values) =
        read_typed codec int64_as tz_mode (own_desc encode_text i v) (own_type encode_text v)
        ∷ own_readers (suc i) values

    make_readers-own_descs :
        (i : ℕ) (values : List (ParamValue S))
        → make_readers codec int64_as tz_mode (own_descs encode_text i values)
          ≡ some (own_readers i values)
    unfolding make_readers
    make_readers-own_descs i [] = refl
    make_readers-own_descs i (v ∷ values) =
        make_step codec int64_as tz_mode (own_desc encode_text i v) (own_type encode_text v)
          (own_descs encode_text (suc i) values) (own_readers (suc i) values)
          (case_of-type_code (own_type encode_text v)) (make_readers-own_descs (suc i) values)

    length-own_readers :
        (i : ℕ) (values : List (ParamValue S)) → length (own_readers i values) ≡ length values
    length-own_readers i [] = refl
    length-own_readers i (v ∷ values) = ap suc (length-own_readers (suc i) values)

    nil_read :
        (i : ℕ) (blr bitmap rest : List ℕ) (e : List ℕ × List ℕ × List Item)
        → encode_from encode_text i [] blr bitmap ≡ some e
        → row_from e.1 i [] (encodings e.2 ++ rest) ≡ ok [] rest
    unfolding encode_from row_from
    nil_read i blr bitmap rest e h = let z : e.2 ≡ [] = cc (h) in rw z refl

    null_Reads :
        (i : ℕ) (v : ParamValue S) (blr : List ℕ) (x : List ℕ × List Item)
        → encode_value encode_text i v blr ≡ some x
        → is_null v ≡ true
        → (x.1 ≡ []) × (own_value encode_text codec int64_as tz_mode i v ≡ Value.null)
    unfolding encode_value
    null_Reads i ParamValue.null blr x h k = (cc (h), refl)
    null_Reads i _ blr x h k = absurd (cc (k))

    -- A column, from what is read of it and of those behind it.
    column_read :
        (i : ℕ) (v : ParamValue S) (blr bitmap rest : List ℕ) (x : List ℕ × List Item)
        (ys : List Item) (readers : List (List ℕ → Outcome Value)) (row : List Value)
        → encode_value encode_text i v blr ≡ some x
        → get_bit bitmap i ≡ is_null v
        → IsMade v
        → row_from bitmap (suc i) readers (encodings ys ++ rest) ≡ ok row rest
        → row_from bitmap i
            (read_typed codec int64_as tz_mode (own_desc encode_text i v) (own_type encode_text v)
              ∷ readers)
            (encodings (x.1 ++ ys) ++ rest)
          ≡ ok (own_value encode_text codec int64_as tz_mode i v ∷ row) rest
    column_read i v blr bitmap rest x ys readers row p b m ih =
        let reader =
          read_typed codec int64_as tz_mode (own_desc encode_text i v) (own_type encode_text v) in
        let s : encodings (x.1 ++ ys) ++ rest ≡ encodings x.1 ++ (encodings ys ++ rest) =
          ap (λ z. z ++ rest) (encodings-append x.1 ys)
          ∙ append_assoc (encodings x.1) (encodings ys) rest in
        elim (Bool-cases (is_null v)) [
          | inl n ↦
              let k = null_Reads i v blr x p n in
              ap (λ z. row_from bitmap i (reader ∷ readers) (encodings (z ++ ys) ++ rest)) k.0
              ∙ null_step bitmap i reader readers (encodings ys ++ rest) rest row (b ∙ n) ih
              ∙ ap (λ z. ok (z ∷ row) rest) (sym k.1)
          | inr n ↦
              ap (λ z. row_from bitmap i (reader ∷ readers) z) s
              ∙ value_step bitmap i reader readers (encodings x.1 ++ (encodings ys ++ rest))
                  (encodings ys ++ rest) rest (own_value encode_text codec int64_as tz_mode i v) row
                  (b ∙ n)
                  (value_Reads encode_text codec int64_as tz_mode i v blr (encodings ys ++ rest) x p
                    n m)
                  ih
        ]

    row_from-own_readers :
        (i : ℕ) (values : List (ParamValue S)) (blr bitmap rest : List ℕ)
        (e : List ℕ × List ℕ × List Item)
        → encode_from encode_text i values blr bitmap ≡ some e
        → i + length values ≤ 8 * length bitmap
        → IsClear i bitmap
        → All IsMade values
        → row_from e.1 i (own_readers i values) (encodings e.2 ++ rest)
          ≡ ok (own_values encode_text codec int64_as tz_mode i values) rest
    row_from-own_readers i [] blr bitmap rest e h k c m = nil_read i blr bitmap rest e h
    row_from-own_readers i (v ∷ values) blr bitmap rest e h k c m =
        let (x, p, y, q, r) = encode_step encode_text i v values blr bitmap e h in
        let l = length-marked encode_text i v bitmap in
        let fits : suc i + length values ≤ 8 * length (marked encode_text i v bitmap) =
          omega (arith, k, l) in
        let ih =
          row_from-own_readers (suc i) values (null_slot x.0) (marked encode_text i v bitmap) rest y
            q fits (marked-IsClear encode_text i v bitmap (omega (arith, k)) c) m.1 in
        let clear = c i (omega arith) in
        let bit : get_bit y.1 i ≡ is_null v =
          (bits_kept encode_text (suc i) values (null_slot x.0) (marked encode_text i v bitmap) y q
              fits).1
            i (omega arith)
          ∙ get_bit-marked encode_text i i v bitmap (omega (arith, k))
          ∙ ground arith in
        subst
          (λ z.
            row_from z.1 i (own_readers i (v ∷ values)) (encodings z.2 ++ rest)
            ≡ ok (own_values encode_text codec int64_as tz_mode i (v ∷ values)) rest)
          (sym r)
          (column_read i v blr y.1 rest x y.2 (own_readers (suc i) values)
            (own_values encode_text codec int64_as tz_mode (suc i) values) p bit m.0 ih)

row_step :
    (readers : List (List ℕ → Outcome Value)) (bitmap bs rest rest' : List ℕ) (row : List Value)
    → read_padded ((length readers + 7) / 8) bs ≡ ok bitmap rest
    → row_from bitmap 0 readers rest ≡ ok row rest'
    → read_row readers bs ≡ ok row rest'
unfolding read_row
row_step readers bitmap bs rest rest' row e f = rw (e, f) refl

bitmap_read :
    (bitmap rest : List ℕ) (items : List Item)
    → read_padded (length bitmap) (encodings (bitmap_items bitmap ++ items) ++ rest)
      ≡ ok bitmap (encodings items ++ rest)
unfolding bitmap_items
bitmap_read bitmap rest items =
    let n = pad4 (length bitmap) - length bitmap in
    ap (λ z. read_padded (length bitmap) (z ++ rest)) (encodings-append (bitmap_items bitmap) items)
    ∙ ap (λ z. read_padded (length bitmap) (((bitmap ++ z) ++ encodings items) ++ rest))
        (encodings-replicate n 255)
    ∙ ap (λ z. read_padded (length bitmap) z)
        (append_assoc (bitmap ++ replicate n 255) (encodings items) rest)
    ∙ read_padded_lem bitmap (encodings items ++ rest) 255

module _ {ℓ} {S : Type ℓ} (encode_text : ℕ → S → List ℕ) (codec : Option (List ℕ → Value))
    (int64_as : Int64As) (tz_mode : TzMode) where
  -- The message of some parameters, whatever follows it, is read by the readers of the columns that
  -- hold them as the row of their values: null where a parameter is null, and the others in order,
  -- if ids, floats, dates and zones have their sizes.
  pub read_row-encode_params :
      (values : List (ParamValue S)) (blr rest : List ℕ) (items : List Item)
      → encode_params encode_text values ≡ some (blr, items)
      → All IsMade values
      → (readers : List (List ℕ → Outcome Value)) × (make_readers codec int64_as tz_mode
            (own_descs encode_text 0 values)
          ≡ some readers)
        × (read_row readers (encodings items ++ rest)
            ≡ ok (own_values encode_text codec int64_as tz_mode 0 values) rest)
  read_row-encode_params values blr rest items h m =
      let (e, p, q, r) = encode_params_parts encode_text values blr items h in
      let n = (length values + 7) / 8 in
      let zeros = replicate n 0 in
      let l : length zeros ≡ n = length-replicate n 0 in
      let fits : 0 + length values ≤ 8 * length zeros = omega (arith, l) in
      let readers = own_readers encode_text codec int64_as tz_mode 0 values in
      let k = bits_kept encode_text 0 values (blr_header (length values) []) zeros e p fits in
      let size : (length readers + 7) / 8 ≡ length e.1 =
        ap (λ z. (z + 7) / 8) (length-own_readers encode_text codec int64_as tz_mode 0 values)
        ∙ sym l
        ∙ sym k.0 in
      (
        readers,
        make_readers-own_descs encode_text codec int64_as tz_mode 0 values,
        row_step readers e.1 (encodings items ++ rest) (encodings e.2 ++ rest) rest
            (own_values encode_text codec int64_as tz_mode 0 values)
            (ap (λ z. read_padded z (encodings items ++ rest)) size
              ∙ ap (λ z. read_padded (length e.1) (encodings z ++ rest)) r
              ∙ bitmap_read e.1 rest e.2)
            (row_from-own_readers encode_text codec int64_as tz_mode 0 values
              (blr_header (length values) []) zeros rest e p fits (λ j lt. get_bit-replicate n j)
              m),
      )

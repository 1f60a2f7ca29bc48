-- ===== src/Rows/Declared.antt =====
-- The types that the parameters declare are those of the columns that hold them.
use fast_firebird.Base.{
  ℕ, suc, ◌+◌, ◌≡◌, refl, ◌∙◌, sym, ap, true, false, none, some, List, [], ◌∷◌, ◌++◌, replicate,
  ◌/◌, length, pos, if◌then◌else◌, arith, Bool-cases, inl, inr, Option-cases,
}
use fast_firebird.Wire.Xdr.{fits_int64}
use fast_firebird.Wire.Xdr.Items.{Item}
use fast_firebird.Info.Describe.{SqlVarDesc}
use fast_firebird.Rows.{
  SqlType, text, case_of, type_code, field_blr, fields_blr, null_slot, blr_header, blr_footer,
  build_output_blr,
}
use fast_firebird.Rows.Reading.{is_safe}
use fast_firebird.Rows.Params.{
  ParamValue, is_int32, is_null, set_bit, encode_fixed, encode_double, encode_number, encode_bigint,
  encode_bool, encode_value, encode_from, encode_params, bitmap_items,
}
use fast_firebird.Rows.Own.{own_type, own_desc, own_descs}

pub case_of-type_code : (t : SqlType) → case_of (pos (type_code t)) ≡ some t
unfolding case_of
case_of-type_code text = refl
case_of-type_code _ = refl

pub fields_step :
    (d : SqlVarDesc) (t : SqlType) (descs : List SqlVarDesc) (b b' : List ℕ)
    → case_of d.sql_type ≡ some t
    → field_blr d t b ≡ some b'
    → fields_blr (d ∷ descs) b ≡ fields_blr descs (null_slot b')
unfolding fields_blr
fields_step d t descs b b' e f = rw (e, f, fields_blr) refl

module _ {ℓ} {S : Type ℓ} (encode_text : ℕ → S → List ℕ) where
  pub encode_step :
      (i : ℕ) (v : ParamValue S) (values : List (ParamValue S)) (blr bitmap : List ℕ)
      (e : List ℕ × List ℕ × List Item)
      → encode_from encode_text i (v ∷ values) blr bitmap ≡ some e
      → (x : List ℕ × List Item) × (encode_value encode_text i v blr ≡ some x)
        × (y : List ℕ × List ℕ × List Item) × (encode_from encode_text
              (suc i)
              values
              (null_slot x.0)
              (if is_null v then set_bit bitmap i else bitmap)
            ≡ some y)
        × (e ≡ (y.0, y.1, x.1 ++ y.2))
  unfolding encode_from
  encode_step i v values blr bitmap e h = elim (Option-cases (encode_value encode_text i v blr)) [
    | inl p ↦ let z = rw (p, encode_from) at h in absurd (cc (z))
    | inr (x, p) ↦
        elim (Option-cases (
          encode_from encode_text (suc i) values (null_slot x.0)
            (if is_null v then set_bit bitmap i else bitmap))) [
              | inl q ↦ let z = rw (p, q, encode_from) at h in absurd (cc (z))
              | inr (y, q) ↦ let z = rw (p, q, encode_from) at h in (x, p, y, q, cc (z))
            ]
  ]

  field_declared :
      (i : ℕ) (v : ParamValue S) (blr : List ℕ) (e : List ℕ × List Item)
      → encode_value encode_text i v blr ≡ some e
      → field_blr (own_desc encode_text i v) (own_type encode_text v) blr ≡ some e.0
  unfolding field_blr encode_value encode_fixed encode_bool encode_bigint encode_number
      encode_double
  field_declared i ParamValue.null blr e h = ground arith
  field_declared i (ParamValue.string_ s) blr e h = ground arith
  field_declared i (ParamValue.bool true) blr e h = ground arith
  field_declared i (ParamValue.bool false) blr e h = ground arith
  field_declared i (ParamValue.number none bytes) blr e h = ground arith
  field_declared i (ParamValue.number (some v) bytes) blr e h = elim (Bool-cases (is_int32 v)) [
    | inl f ↦ ground arith
    | inr f ↦ elim (Bool-cases (is_safe v)) [ inl g ↦ ground arith | inr g ↦ ground arith ]
  ]
  field_declared i (ParamValue.bigint v) blr e h = elim (Bool-cases (fits_int64 v)) [
    | inl f ↦ ground arith
    | inr f ↦ ground arith
  ]
  field_declared i (ParamValue.zoned days fractions id) blr e h = ground arith
  field_declared i (ParamValue.date days fractions) blr e h = ground arith
  field_declared i (ParamValue.blob_ref id) blr e h = ground arith
  field_declared i (ParamValue.dec_float bytes) blr e h = ground arith
  field_declared i (ParamValue.buffer bytes) blr e h = ground arith
  field_declared i ParamValue.unsupported blr e h = cc

  length-own_descs :
      (i : ℕ) (values : List (ParamValue S))
      → length (own_descs encode_text i values) ≡ length values
  length-own_descs i [] = refl
  length-own_descs i (v ∷ values) = ap suc (length-own_descs (suc i) values)

  fields_declared :
      (i : ℕ) (values : List (ParamValue S)) (blr bitmap : List ℕ) (e : List ℕ × List ℕ × List Item)
      → encode_from encode_text i values blr bitmap ≡ some e
      → fields_blr (own_descs encode_text i values) blr ≡ some e.0
  unfolding fields_blr encode_from
  fields_declared i [] blr bitmap e h = ground arith
  fields_declared i (v ∷ values) blr bitmap e h =
      let (x, p, y, q, r) = encode_step i v values blr bitmap e h in
      let c = case_of-type_code (own_type encode_text v) in
      let next = if is_null v then set_bit bitmap i else bitmap in
      fields_step (own_desc encode_text i v) (own_type encode_text v)
        (own_descs encode_text (suc i) values) blr x.0 c (field_declared i v blr x p)
      ∙ fields_declared (suc i) values (null_slot x.0) next y q
      ∙ ap (λ z. some z) (sym (ap (λ z. z.0) r))

  pub encode_params_parts :
      (values : List (ParamValue S)) (blr : List ℕ) (items : List Item)
      → encode_params encode_text values ≡ some (blr, items)
      → (e : List ℕ × List ℕ × List Item) × (encode_from encode_text 0 values
            (blr_header (length values) [])
            (replicate ((length values + 7) / 8) 0)
          ≡ some e)
        × (blr ≡ blr_footer e.0)
        × (items ≡ bitmap_items e.1 ++ e.2)
  unfolding encode_params
  encode_params_parts values blr items h =
      elim (Option-cases (
        encode_from encode_text 0 values (blr_header (length values) [])
          (replicate ((length values + 7) / 8) 0))) [
            | inl p ↦ let z = rw (p, encode_params) at h in absurd (cc (z))
            | inr (e, p) ↦ let z = rw (p, encode_params) at h in (e, p, cc (z), cc (z))
          ]

  -- The BLR that goes with some parameters is the one for the columns that hold them: for every
  -- parameter that is sent, its own type, and a text of one character for null.
  pub build_output_blr-own_descs :
      (values : List (ParamValue S)) (blr : List ℕ) (items : List Item)
      → encode_params encode_text values ≡ some (blr, items)
      → build_output_blr (own_descs encode_text 0 values) ≡ some blr
  unfolding build_output_blr
  build_output_blr-own_descs values blr items h =
      let (e, p, q, r) = encode_params_parts values blr items h in
      let f =
        fields_declared 0 values (blr_header (length values) [])
          (replicate ((length values + 7) / 8) 0) e p in
      rw (length-own_descs 0 values, f, build_output_blr) (ap (λ z. some z) (sym q))

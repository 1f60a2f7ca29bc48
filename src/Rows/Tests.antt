-- ===== src/Rows/Tests.antt =====
-- A message of four parameters: its BLR, its bytes, and the row that is read from it.
use fast_firebird.Base.{ℕ, ◌≡◌, refl, true, none, some, List, [], ◌∷◌, ◌++◌, codes, pos}
use fast_firebird.Wire.Xdr.Items.{encodings, Item}
use fast_firebird.Wire.Responses.{Outcome, ok}
use fast_firebird.Rows.{byte, word, blr_header, blr_footer, null_slot, build_output_blr}
use fast_firebird.Rows.Reading.{Value, auto, as_zoned, read_row}
use fast_firebird.Rows.Params.{
  ParamValue, encode_fixed, encode_number, encode_bool, encode_value, or_bit, set_bit, encode_from,
  bitmap_items, encode_params,
}
use fast_firebird.Rows.Own.{own_descs, own_values, make_readers}
use fast_firebird.Rows.Declared.{build_output_blr-own_descs}
use fast_firebird.Rows.RoundTrip.{read_row-encode_params}

abbrev plain : ℕ → List ℕ → List ℕ
plain i s = s

abbrev four : List (ParamValue (List ℕ))
four =
    ParamValue.number (some (pos 7)) (0 ∷ 0 ∷ 0 ∷ 0 ∷ 0 ∷ 0 ∷ 0 ∷ 0 ∷ [])
    ∷ ParamValue.null
    ∷ ParamValue.string_ (codes "abc")
    ∷ ParamValue.bool true
    ∷ []

abbrev four_blr : List ℕ
four_blr =
    5 ∷ 2 ∷ 4 ∷ 0 ∷ 8 ∷ 0 ∷ 8 ∷ 0 ∷ 7 ∷ 0 ∷ 14 ∷ 1 ∷ 0 ∷ 7 ∷ 0 ∷ 14 ∷ 3 ∷ 0 ∷ 7 ∷ 0 ∷ 14 ∷ 4 ∷ 0 ∷ 7
    ∷ 0 ∷ 255 ∷ 76 ∷ []

abbrev four_items : List Item
four_items =
    Item.bare (2 ∷ [])
    ∷ Item.bare (255 ∷ [])
    ∷ Item.bare (255 ∷ [])
    ∷ Item.bare (255 ∷ [])
    ∷ Item.int (pos 7)
    ∷ Item.fixed (codes "abc")
    ∷ Item.fixed (codes "true")
    ∷ []

four_encoded : encode_params plain four ≡ some (four_blr, four_items)
unfolding encode_params encode_from encode_value encode_number encode_fixed encode_bool byte word
    blr_header blr_footer null_slot set_bit or_bit bitmap_items
four_encoded = refl

too_long : encode_params plain (ParamValue.unsupported ∷ []) ≡ none
unfolding encode_params encode_from encode_value
too_long = refl

build_output_blr-own_descs_example : build_output_blr (own_descs plain 0 four) ≡ some four_blr
build_output_blr-own_descs_example =
    build_output_blr-own_descs plain four four_blr four_items four_encoded

read_row-encode_params_example :
    (readers : List (List ℕ → Outcome Value)) × (make_readers none auto as_zoned
        (own_descs plain 0 four)
      ≡ some readers)
    × (read_row readers (encodings four_items ++ (9 ∷ []))
        ≡ ok (own_values plain none auto as_zoned 0 four) (9 ∷ []))
read_row-encode_params_example =
    read_row-encode_params plain none auto as_zoned four four_blr (9 ∷ []) four_items four_encoded
      (refl, (tt, (tt, (tt, tt))))

four_values :
    own_values plain none auto as_zoned 0 four
    ≡ Value.number (pos 7)
      ∷ Value.null
      ∷ Value.buffer (codes "abc")
      ∷ Value.buffer (codes "true")
      ∷ []
four_values = refl

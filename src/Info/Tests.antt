-- ===== src/Info/Tests.antt =====
-- Responses of a server, and the theorem applied to one.
use fast_firebird.Base.{ℕ, ◌≡◌, refl, none, some, List, [], ◌∷◌, true, ℤ, pos, arith}
use fast_firebird.Info.{
  parse_record_counts, done, next_item, read_int, read_le, int_of_length, read_string,
}
use fast_firebird.Info.Counts.{records_response, parse_record_counts-response}
use fast_firebird.Info.Describe.{
  parse_describe, describe_from, item_round, begin_var, change, change_at, put_at, int_field,
  text_field,
}

abbrev items : List (ℕ × ℤ)
items = (15, pos 3) ∷ (16, pos 0) ∷ (13, pos 40) ∷ (14, pos 300) ∷ []

parse_record_counts-response_example :
    parse_record_counts (records_response items (7 ∷ []))
    ≡ some (record { selected = pos 40; inserted = pos 300; updated = pos 3; deleted = pos 0 })
parse_record_counts-response_example =
    parse_record_counts-response items (7 ∷ [])
      ((refl, omega arith), ((refl, omega arith), ((refl, omega arith), ((refl, omega arith), tt))))
      (omega arith)

-- The statement type, then one nullable integer column named A.
test_describe :
    parse_describe (
      21 ∷ 1 ∷ 0 ∷ 1 ∷ 4 ∷ 7 ∷ 1 ∷ 0 ∷ 1 ∷ 9 ∷ 1 ∷ 0 ∷ 1 ∷ 11 ∷ 2 ∷ 0 ∷ 241 ∷ 1 ∷ 16 ∷ 1 ∷ 0 ∷ 65
      ∷ 8 ∷ 1 ∷ [])
    ≡ some (record {
      stmt_type = pos 1;
      inputs = [];
      outputs =
          some (record {
            sql_type = pos 496;
            nullable = true;
            sub_type = pos 0;
            scale = pos 0;
            size = pos 0;
            field_name = some (65 ∷ []);
            relation = none;
            owner = none;
            alias = none;
            relation_alias = none;
          })
          ∷ [];
    })
unfolding parse_describe describe_from item_round begin_var change change_at put_at int_field
    text_field done next_item read_int read_le int_of_length read_string
test_describe = refl

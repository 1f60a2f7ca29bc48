-- ===== src/Fetch/Tests.antt =====
-- Fetches of a narrow and of a wide result.
use fast_firebird.Base.{◌*◌, ◌^◌, ◌≤◌, ◌<◌, ◌≡◌, refl, List, [], ◌∷◌, max, min, arith}
use fast_firebird.Fetch.{
  SqlVarDesc, target_batch_bytes, min_batch_rows, ramp_start_rows, estimate_row_width, add_widths,
  column_width, next_fetch_count,
}
use fast_firebird.Fetch.Ramp.{ceiling, fetch_count, fetch_count_doubles, next_fetch_count_bounds}

-- An integer and a text of 60 bytes.
abbrev columns : List SqlVarDesc
columns = record { sql_type = 496; size = 4 } ∷ record { sql_type = 448; size = 60 } ∷ []

test_width : estimate_row_width columns ≡ 73
unfolding estimate_row_width add_widths column_width
test_width = refl

test_ramp :
    fetch_count 73 1000 0 ∷ fetch_count 73 1000 1 ∷ fetch_count 73 1000 6 ∷ [] ≡ 40 ∷ 80 ∷ 1000 ∷ []
unfolding next_fetch_count
test_ramp = refl

fetch_count_doubles_example :
    fetch_count 73 1000 6 ≡ min (ramp_start_rows * 2 ^ 6) (ceiling 73 1000)
fetch_count_doubles_example = fetch_count_doubles 73 1000 6 (omega arith)

next_fetch_count_bounds_example :
    let width = estimate_row_width columns in
    let count = next_fetch_count width 1000 320 in
    (0 < count)
    × (count ≤ 1000)
    × (count ≤ 16384)
    × (count * width ≤ max (min_batch_rows * width) target_batch_bytes)
next_fetch_count_bounds_example = next_fetch_count_bounds columns 1000 320 (omega arith)

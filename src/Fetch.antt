-- ===== src/Fetch.antt =====
-- packages/core/src/protocol/fetch-plan.ts: how many rows each fetch asks for.
pub mod Ramp
mod Tests
use fast_firebird.Base.{
  ℕ, zero, suc, ◌+◌, ◌*◌, ◌/◌, ◌||◌, List, [], ◌∷◌, ◌==◌, if◌then◌else◌, length, max, min,
}

-- `SqlVarDesc` of info.ts, as far as the width depends on it; the type is the code of `SqlType`.
pub record SqlVarDesc : Type 0 where
  pub sql_type : ℕ
  pub size : ℕ

abbrev pub target_batch_bytes : ℕ
target_batch_bytes = 262144

abbrev pub min_batch_rows : ℕ
min_batch_rows = 10

abbrev pub ramp_start_rows : ℕ
ramp_start_rows = 40

-- TEXT and VARYING; SHORT, LONG and FLOAT; INT128 and DEC34; all others take eight bytes, as
-- BLOB, ARRAY and QUAD do.
unfoldable pub column_width : SqlVarDesc → ℕ
column_width d =
    if d.sql_type == 452 || d.sql_type == 448
    then 4 + d.size
    else if d.sql_type == 500 || d.sql_type == 496 || d.sql_type == 482
    then 4
    else if d.sql_type == 32752 || d.sql_type == 32762
    then 16
    else 8

-- `for (const d of descs) bytes += …`
unfoldable pub add_widths : List SqlVarDesc → ℕ → ℕ
add_widths [] bytes = bytes
add_widths (d ∷ descs) bytes = add_widths descs (bytes + column_width d)

unfoldable pub estimate_row_width : List SqlVarDesc → ℕ
estimate_row_width descs = max (add_widths descs (4 + (length descs + 7) / 8)) 16

unfoldable pub next_fetch_count : ℕ → ℕ → ℕ → ℕ
next_fetch_count row_width max_rows prev_count =
    let budget_rows = max min_batch_rows (target_batch_bytes / row_width) in
    let ceiling = min max_rows budget_rows in
    if prev_count == 0 then min ramp_start_rows ceiling else min (prev_count * 2) ceiling

-- ===== src/Info.antt =====
-- packages/core/src/protocol/info.ts: info responses, which are clusters of an item byte, a length
-- of two bytes and data, all little-endian. Reads behind the end throw: `none`.
pub mod Describe
pub mod Counts
mod Tests
use fast_firebird.Base.{
  ℕ, zero, suc, ◌+◌, ◌-◌, ◌*◌, ◌/◌, ◌%◌, ◌^◌, Bool, true, false, ◌||◌, ◌&&◌, not, Option, none,
  some, List, [], ◌∷◌, ◌++◌, leb, ltb, ◌==◌, if◌then◌else◌, length, take, drop, get_elem?, set,
  le_value, ℤ, pos, negsuc, signed, wrap, ◌>>=◌, replicate,
}

pub record ClumpletReader : Type 0 where
  pub buf : List ℕ
  pub at : ℕ

abbrev pub moved_by : ℕ → ClumpletReader → ClumpletReader
moved_by n r = record r { at = r.at + n }

-- `undefined === item` is false.
abbrev pub is_item : ℕ → Option ℕ → Bool
is_item k none = false
is_item k (some b) = b == k

-- At the end of the buffer, or at `SqlInfo.end`.
unfoldable pub done : ClumpletReader → Bool
done r = leb (length r.buf) r.at || is_item 1 (get_elem? r.buf r.at)

unfoldable pub next_item : ClumpletReader → Option ℕ × ClumpletReader
next_item r = (get_elem? r.buf r.at, moved_by 1 r)

-- `readUInt16LE(pos)` and its kin for k bytes.
unfoldable pub read_le : ℕ → ClumpletReader → Option ℕ
read_le k r =
    if leb (r.at + k) (length r.buf) then some (le_value (take k (drop r.at r.buf))) else none

unfoldable pub int_of_length : ℕ → ClumpletReader → Option ℤ
unfolding read_le
int_of_length len r =
    if len == 0
    then some (pos 0)
    else if len == 1 || len == 2 || len == 4
    then (do n ← read_le len r; some (signed (256 ^ len) n))
    else none

unfoldable pub read_int : ClumpletReader → Option (ℤ × ClumpletReader)
unfolding read_le int_of_length
read_int r = do
  len ← read_le 2 r
  v ← int_of_length len (moved_by 2 r)
  some (v, moved_by (2 + len) r)

-- `toString` stops at the end of the buffer; the text stays its bytes.
unfoldable pub read_string : ClumpletReader → Option (List ℕ × ClumpletReader)
unfolding read_le
read_string r = do len ← read_le 2 r; some (take len (drop (r.at + 2) r.buf), moved_by (2 + len) r)

unfoldable pub skip_cluster : ClumpletReader → Option ClumpletReader
unfolding read_le
skip_cluster r = do len ← read_le 2 r; some (moved_by (2 + len) r)

pub record RecordCounts : Type 0 where
  pub selected : ℤ
  pub inserted : ℤ
  pub updated : ℤ
  pub deleted : ℤ

unfoldable pub count : Option ℕ → ℤ → RecordCounts → RecordCounts
count sub v counts =
    if is_item 13 sub
    then record counts { selected = v }
    else if is_item 14 sub
    then record counts { inserted = v }
    else if is_item 15 sub
    then record counts { updated = v }
    else if is_item 16 sub
    then record counts { deleted = v }
    else counts

-- The inner loop of `parseRecordCounts`, up to `last`; each round reads three bytes at least.
unfoldable pub counts_from : ℕ → ℕ → ClumpletReader → RecordCounts → Option RecordCounts
counts_from zero last r counts = none
counts_from (suc fuel) last r counts =
    elim (ltb r.at last && not (is_item 1 (get_elem? r.buf r.at))) [
      | false ↦ some counts
      | true ↦ (do
        (v, r') ← read_int (next_item r).1
        counts_from fuel last r' (count (next_item r).0 v counts))
    ]

-- The outer loop, which skips what is not `SqlInfo.records`.
unfoldable pub records_from : ℕ → ClumpletReader → RecordCounts → Option RecordCounts
records_from zero r counts = none
records_from (suc fuel) r counts = elim (done r) [
  | true ↦ some counts
  | false ↦ elim (is_item 23 (next_item r).0) [
    | false ↦ (do r' ← skip_cluster (next_item r).1; records_from fuel r' counts)
    | true ↦ (do
      len ← read_le 2 (next_item r).1
      let r' = moved_by 2 (next_item r).1
      counts_from (suc (length r.buf)) (r'.at + len) r' counts)
  ]
]

unfoldable pub parse_record_counts : List ℕ → Option RecordCounts
parse_record_counts buf =
    records_from (suc (length buf)) (record { buf = buf; at = 0 })
      (record { selected = pos 0; inserted = pos 0; updated = pos 0; deleted = pos 0 })

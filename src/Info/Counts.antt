-- ===== src/Info/Counts.antt =====
-- Record counts read back from what the server writes.
use fast_firebird.Base.{
  ℕ, zero, suc, ◌+◌, ◌*◌, ◌^◌, ◌≤◌, ◌<◌, ◌≡◌, refl, sym, ap, subst, ◌∙◌, true, false, ◌&&◌, not,
  some, List, [], ◌∷◌, ◌++◌, ltb, ◌==◌, length, take, drop, get_elem?, le_bytes, le_value,
  le_value-le_bytes, length-le_bytes, length-append, length-drop, drop-drop, take-append_length,
  drop-append_length, ℤ, pos, signed, wrap, InSigned, signed-wrap32, wrap32-lt, All, arith, le→leb,
  Bool-cases, inl, inr, if◌then◌else◌,
}
use fast_firebird.Info.{
  ClumpletReader, moved_by, is_item, done, next_item, read_le, int_of_length, read_int,
  RecordCounts, count, counts_from, records_from, parse_record_counts,
}

-- The bytes that are left to read.
abbrev unread : ClumpletReader → List ℕ
unread r = drop r.at r.buf

read_le_lem :
    (k n : ℕ) (rest : List ℕ) (r : ClumpletReader)
    → 0 < k
    → n < 256 ^ k
    → unread r ≡ le_bytes k n ++ rest
    → read_le k r ≡ some n
unfolding read_le
read_le_lem k n rest r p h e =
    let fits : r.at + k ≤ length r.buf = omega (
      arith,
      ap length e,
      length-append (le_bytes k n) rest,
      length-le_bytes k n,
      length-drop r.at r.buf,
    ) in
    let first : take k (drop r.at r.buf) ≡ le_bytes k n =
      ap (take k) e
      ∙ subst (λ m. take m (le_bytes k n ++ rest) ≡ le_bytes k n) (length-le_bytes k n)
          (take-append_length (le_bytes k n) rest) in
    rw (le→leb (r.at + k) (length r.buf) fits)
      (ap (λ b. some (le_value b)) first ∙ ap (λ m. some m) (le_value-le_bytes k n h))

unread-moved_by :
    (k n : ℕ) (rest : List ℕ) (r : ClumpletReader)
    → unread r ≡ le_bytes k n ++ rest
    → unread (moved_by k r) ≡ rest
unread-moved_by k n rest r e =
    drop-drop r.at k r.buf
    ∙ ap (drop k) e
    ∙ subst (λ m. drop m (le_bytes k n ++ rest) ≡ rest) (length-le_bytes k n)
        (drop-append_length (le_bytes k n) rest)

int_of_four :
    (n : ℕ) (r : ClumpletReader)
    → read_le 4 r ≡ some n
    → int_of_length 4 r ≡ some (signed (256 ^ 4) n)
unfolding int_of_length
int_of_four n r e = rw e refl

read_int_step :
    (len : ℕ) (v : ℤ) (r : ClumpletReader)
    → read_le 2 r ≡ some len
    → int_of_length len (moved_by 2 r) ≡ some v
    → read_int r ≡ some (v, moved_by (2 + len) r)
unfolding read_int
read_int_step len v r e f = rw (e, f) refl

-- An integer of four bytes.
abbrev pub int_cluster : ℤ → List ℕ → List ℕ
int_cluster v rest = le_bytes 2 4 ++ (le_bytes 4 (wrap (2 ^ 32) v) ++ rest)

pub read_int-int_cluster :
    (v : ℤ) (rest : List ℕ) (r : ClumpletReader)
    → InSigned (2 ^ 32) v
    → unread r ≡ int_cluster v rest
    → read_int r ≡ some (v, moved_by 6 r)
read_int-int_cluster v rest r h e =
    let inner = unread-moved_by 2 4 (le_bytes 4 (wrap (2 ^ 32) v) ++ rest) r e in
    read_int_step 4 v r
      (read_le_lem 2 4 (le_bytes 4 (wrap (2 ^ 32) v) ++ rest) r (omega arith) (omega arith) e)
      (int_of_four _ (moved_by 2 r)
          (read_le_lem 4 (wrap (2 ^ 32) v) rest (moved_by 2 r) (omega arith) (wrap32-lt v) inner)
        ∙ ap (λ n. some n) (signed-wrap32 v h))

get_elem?-drop : (i : ℕ) (xs rest : List ℕ) (x : ℕ) → drop i xs ≡ x ∷ rest → get_elem? xs i ≡ some x
get_elem?-drop zero [] rest x e = cc
get_elem?-drop zero (y ∷ xs) rest x e = cc
get_elem?-drop (suc i) [] rest x e = cc
get_elem?-drop (suc i) (y ∷ xs) rest x e = get_elem?-drop i xs rest x e

counts_step :
    (fuel last sub : ℕ) (v : ℤ) (r r' : ClumpletReader) (c : RecordCounts)
    → get_elem? r.buf r.at ≡ some sub
    → (ltb r.at last && not (sub == 1)) ≡ true
    → read_int (moved_by 1 r) ≡ some (v, r')
    → counts_from (suc fuel) last r c ≡ counts_from fuel last r' (count (some sub) v c)
unfolding counts_from next_item
counts_step fuel last sub v r r' c e f g =
    rw (e, f, g, counts_from) (ap (λ s. counts_from fuel last r' (count s v c)) e)

counts_end :
    (fuel last : ℕ) (r : ClumpletReader) (c : RecordCounts)
    → (ltb r.at last && not (is_item 1 (get_elem? r.buf r.at))) ≡ false
    → counts_from (suc fuel) last r c ≡ some c
unfolding counts_from
counts_end fuel last r c e = rw (e, counts_from) refl

-- The counts of a statement, each under its code, and what is behind them.
abbrev pub written : List (ℕ × ℤ) → List ℕ → List ℕ
written [] rest = rest
written ((sub, v) ∷ items) rest = sub ∷ int_cluster v (written items rest)

abbrev all_counted : List (ℕ × ℤ) → RecordCounts → RecordCounts
all_counted [] c = c
all_counted ((sub, v) ∷ items) c = all_counted items (count (some sub) v c)

abbrev pub IsCount : ℕ × ℤ → Type 0
IsCount item = ((item.0 == 1) ≡ false) × InSigned (2 ^ 32) item.1

counts_from-written :
    (items : List (ℕ × ℤ)) (rest : List ℕ) (fuel last : ℕ) (r : ClumpletReader) (c : RecordCounts)
    → All IsCount items
    → unread r ≡ written items (1 ∷ rest)
    → r.at + 7 * length items ≤ last
    → length items < fuel
    → counts_from fuel last r c ≡ some (all_counted items c)
counts_from-written items rest zero last r c h e k f = absurd (omega arith)
counts_from-written [] rest (suc fuel) last r c h e k f = counts_end fuel last r c (
    subst (λ x. (ltb r.at last && not (is_item 1 x)) ≡ false)
      (sym (get_elem?-drop r.at r.buf rest 1 e)) (ground arith))
counts_from-written ((sub, v) ∷ items) rest (suc fuel) last r c h e k f =
    let behind : unread (moved_by 1 r) ≡ int_cluster v (written items (1 ∷ rest)) =
      drop-drop r.at 1 r.buf ∙ ap (drop 1) e in
    let value = unread-moved_by 2 4 _ (moved_by 1 r) behind in
    let later = unread-moved_by 4 (wrap (2 ^ 32) v) _ (moved_by 2 (moved_by 1 r)) value in
    let same : r.at + 1 + 2 + 4 ≡ r.at + 1 + 6 = omega arith in
    counts_step fuel last sub v r (moved_by 6 (moved_by 1 r)) c (get_elem?-drop r.at r.buf _ sub e)
      (ground arith) (read_int-int_cluster v _ (moved_by 1 r) h.0.1 behind)
    ∙ counts_from-written items rest fuel last (moved_by 6 (moved_by 1 r)) (count (some sub) v c)
        h.1 (subst (λ i. drop i r.buf ≡ written items (1 ∷ rest)) same later) (omega arith)
        (omega arith)

length-written-le :
    (items : List (ℕ × ℤ)) (rest : List ℕ) → length items ≤ length (written items rest)
length-written-le [] rest = omega arith
length-written-le ((sub, v) ∷ items) rest = omega (arith, length-written-le items rest)

records_step :
    (fuel len : ℕ) (r : ClumpletReader) (c : RecordCounts)
    → done r ≡ false
    → is_item 23 (get_elem? r.buf r.at) ≡ true
    → read_le 2 (moved_by 1 r) ≡ some len
    → records_from (suc fuel) r c
      ≡ counts_from (suc (length r.buf)) (r.at + 1 + 2 + len) (moved_by 2 (moved_by 1 r)) c
unfolding records_from next_item
records_step fuel len r c e f g = rw (e, f, g, records_from) refl

-- The response to a request for record counts: the cluster of the counts ends with an end item.
abbrev pub records_response : List (ℕ × ℤ) → List ℕ → List ℕ
records_response items rest = 23 ∷ (le_bytes 2 (7 * length items + 1) ++ written items (1 ∷ rest))

abbrev pub no_counts : RecordCounts
no_counts = record { selected = pos 0; inserted = pos 0; updated = pos 0; deleted = pos 0 }

-- The count that stands last under a code, or another if none does.
abbrev pub last_under : ℕ → List (ℕ × ℤ) → ℤ → ℤ
last_under code [] v = v
last_under code ((sub, w) ∷ items) v = last_under code items (if sub == code then w else v)

-- What the server says of the rows: 13 are selected, 14 inserted, 15 updated, 16 deleted.
abbrev pub counts_under : List (ℕ × ℤ) → RecordCounts → RecordCounts
counts_under items c = record {
  selected = last_under 13 items c.selected;
  inserted = last_under 14 items c.inserted;
  updated = last_under 15 items c.updated;
  deleted = last_under 16 items c.deleted;
}

one_counted :
    (sub : ℕ) (v : ℤ) (c : RecordCounts) → count (some sub) v c ≡ counts_under ((sub, v) ∷ []) c
unfolding count
one_counted sub v c = elim (Bool-cases (sub == 13)) [
  | inl a ↦ let e : sub ≡ 13 = ground (arith, a) in rw e refl
  | inr a ↦ elim (Bool-cases (sub == 14)) [
    | inl b ↦ let e : sub ≡ 14 = ground (arith, b) in rw e refl
    | inr b ↦ elim (Bool-cases (sub == 15)) [
      | inl d ↦ let e : sub ≡ 15 = ground (arith, d) in rw e refl
      | inr d ↦ elim (Bool-cases (sub == 16)) [
        | inl f ↦ let e : sub ≡ 16 = ground (arith, f) in rw e refl
        | inr f ↦ rw (a, b, d, f) refl
      ]
    ]
  ]
]

all_counted_under :
    (items : List (ℕ × ℤ)) (c : RecordCounts) → all_counted items c ≡ counts_under items c
all_counted_under [] c = refl
all_counted_under ((sub, v) ∷ items) c =
    ap (all_counted items) (one_counted sub v c)
    ∙ all_counted_under items (counts_under ((sub, v) ∷ []) c)

-- The counts of a response are read back whatever their order: the rows selected, inserted, updated
-- and deleted are each the last count that stands under 13, 14, 15 and 16, or 0 if none does, and
-- codes that are not known are passed over.
pub parse_record_counts-response :
    (items : List (ℕ × ℤ)) (rest : List ℕ)
    → All IsCount items
    → 7 * length items + 1 < 2 ^ 16
    → parse_record_counts (records_response items rest)
      ≡ some (record {
        selected = last_under 13 items (pos 0);
        inserted = last_under 14 items (pos 0);
        updated = last_under 15 items (pos 0);
        deleted = last_under 16 items (pos 0);
      })
unfolding parse_record_counts done
parse_record_counts-response items rest h k =
    let buf = records_response items rest in
    let r : ClumpletReader = record { buf = buf; at = 0 } in
    records_step (length buf) (7 * length items + 1) r no_counts (ground arith) refl
      (read_le_lem 2 _ (written items (1 ∷ rest)) (moved_by 1 r) (omega arith) k refl)
    ∙ counts_from-written items rest (suc (length buf)) _ (moved_by 2 (moved_by 1 r)) no_counts h
        (unread-moved_by 2 _ (written items (1 ∷ rest)) (moved_by 1 r) refl) (omega arith)
        (omega (arith, length-written-le items (1 ∷ rest)))
    ∙ ap (λ c. some c) (all_counted_under items no_counts)

-- ===== src/Script/Comments/Ranges.antt =====
-- The ranges that `commentRanges` returns.
use fast_firebird.Base.{
  ℕ, zero, suc, ◌+◌, ◌≤◌, ◌<◌, ◌≡◌, subst, inl, inr, ◌≢◌, false, List, [], ◌∷◌, ltb, if◌then◌else◌,
  length, arith, Bool-cases, Option-cases,
}
use fast_firebird.Script.Scanner.{line_comment, Region, region_at}
use fast_firebird.Script.Scanner.Bounds.{InText, region_at-InText}
use fast_firebird.Script.Comments.{
  Parsed, ok, unterminated, set_term_without_terminator, set_term_without_new, stuck, ◌>>=◌,
  is_comment, ranges_from, comment_ranges,
}

-- Ranges in order: each starts at or behind the end of the one before, is not empty, and ends
-- within n.
abbrev pub Ordered : ℕ → ℕ → List (ℕ × ℕ) → Type 0
Ordered n prev [] = prev ≤ n
Ordered n prev ((s, e) ∷ ranges) = (prev ≤ s) × (s < e) × Ordered n e ranges

Ordered-weaken :
    (n p q : ℕ) (ranges : List (ℕ × ℕ)) → q ≤ p → Ordered n p ranges → Ordered n q ranges
Ordered-weaken n p q [] h k = omega arith
Ordered-weaken n p q ((s, e) ∷ ranges) h k = (omega (arith, k.0), k.1, k.2)

-- An outcome of a scan of n characters: ranges from i on, or an error that has a message.
abbrev pub Outcome : ℕ → ℕ → Parsed (List (ℕ × ℕ)) → Type 0
Outcome n i (ok ranges) = Ordered n i ranges
Outcome n i (unterminated kind line column) = kind ≢ line_comment
Outcome n i (set_term_without_terminator line column) = ⊥
Outcome n i (set_term_without_new line column) = ⊥
Outcome n i stuck = ⊥

Outcome-weaken : (n p q : ℕ) (o : Parsed (List (ℕ × ℕ))) → q ≤ p → Outcome n p o → Outcome n q o
Outcome-weaken n p q (ok ranges) h k = Ordered-weaken n p q ranges h k
Outcome-weaken n p q (unterminated kind line column) h k = k
Outcome-weaken n p q (set_term_without_terminator line column) h k = k
Outcome-weaken n p q (set_term_without_new line column) h k = k
Outcome-weaken n p q stuck h k = k

-- A terminated region in front of the ranges behind it.
Outcome-region :
    (n i : ℕ) (r : Region) (o : Parsed (List (ℕ × ℕ)))
    → InText n i r
    → Outcome n r.stop o
    → Outcome n i (o >>= λ rest. ok (if is_comment r.kind then (r.start, r.stop) ∷ rest else rest))
Outcome-region n i r (ok ranges) h k = elim (Bool-cases (is_comment r.kind)) [
  | inl e ↦ rw e (omega (arith, h.starts), omega (arith, h.starts, h.progress), k)
  | inr e ↦ rw e (Ordered-weaken n r.stop i ranges (omega (arith, h.progress)) k)
]
Outcome-region n i r (unterminated kind line column) h k = k
Outcome-region n i r (set_term_without_terminator line column) h k = k
Outcome-region n i r (set_term_without_new line column) h k = k
Outcome-region n i r stuck h k = k

ranges_from-Outcome :
    (fuel : ℕ) (sql : List ℕ) (i : ℕ)
    → i ≤ length sql
    → length sql ≤ fuel + i
    → Outcome (length sql) i (ranges_from fuel sql i)
unfolding ranges_from
ranges_from-Outcome zero sql i h k =
    let e : ltb i (length sql) ≡ false = ground arith in rw e (omega arith)
ranges_from-Outcome (suc fuel) sql i h k = elim (Bool-cases (ltb i (length sql))) [
  | inr e ↦ rw (e, ranges_from) (omega arith)
  | inl e ↦ elim (Option-cases (region_at sql i)) [
    | inl p ↦
        rw (e, p, ranges_from)
          (Outcome-weaken (length sql) (i + 1) i (ranges_from fuel sql (i + 1)) (omega arith)
            (ranges_from-Outcome fuel sql (i + 1) (ground arith) (omega arith)))
    | inr (r, p) ↦
        let t = region_at-InText sql i r p in
        elim (Bool-cases r.terminated) [
          | inl q ↦
              rw (e, p, q, ranges_from)
                (Outcome-region (length sql) i r (ranges_from fuel sql r.stop) t
                  (ranges_from-Outcome fuel sql r.stop t.within (omega (arith, t.progress))))
          | inr q ↦ rw (e, p, q, ranges_from) (t.named q)
        ]
  ]
]

-- On every text the scan ends: it returns ranges that are in order, do not overlap, are not empty
-- and lie within the text, or it reports a region that is not closed, never a line comment.
pub comment_ranges-Outcome : (sql : List ℕ) → Outcome (length sql) 0 (comment_ranges sql)
unfolding comment_ranges
comment_ranges-Outcome sql = ranges_from-Outcome (length sql) sql 0 (omega arith) (omega arith)

pub comment_ranges-Ordered :
    (sql : List ℕ) (ranges : List (ℕ × ℕ))
    → comment_ranges sql ≡ ok ranges
    → Ordered (length sql) 0 ranges
comment_ranges-Ordered sql ranges e = subst (Outcome (length sql) 0) e (comment_ranges-Outcome sql)

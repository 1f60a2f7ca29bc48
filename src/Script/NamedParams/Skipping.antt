-- ===== src/Script/NamedParams/Skipping.antt =====
-- The rewriter skips what the script scanner calls a region, and nothing else.
use mathlib.Core.Path.{subst₂}
use fast_firebird.Base.{
  ℕ, ◌+◌, ◌≤◌, ◌<◌, ◌≡◌, refl, inl, inr, false, ◌&&◌, ◌||◌, Option, none, some, List, [], ◌∷◌, ◌==◌,
  length, drop, min, arith, Bool-cases, length-drop, Option-cases,
}
use fast_firebird.Script.Scanner.{
  RegionType, Region, is_at, find_pair, find_quote, q_closer, closed, quote_kind, q_region,
  region_from, region_at, q_literal, block_comment,
}
use fast_firebird.Script.Scanner.Bounds.{
  region_at-InText, find_pair_bounds, find_quote_bounds, line_end_bounds, tail_length,
}
use fast_firebird.Script.NamedParams.{skip_from, skip_quoted, skip_q_literal, or_end}

-- Both find nothing, or the rewriter goes on where the region stops (it may step over the end).
abbrev pub Agree : ℕ → Option Region → Option ℕ → Type 0
Agree n none none = Unit {0}
Agree n (some r) (some j) = min j n ≡ r.stop
Agree n none (some j) = ⊥
Agree n (some r) none = ⊥

or_end-closed :
    (kind : RegionType) (i n past : ℕ) (o : Option ℕ)
    → ((k : ℕ) → o ≡ some k → k + past ≤ n)
    → min (or_end n o + past) n ≡ (closed kind i n past o).stop
unfolding closed
or_end-closed kind i n past none h = omega arith
or_end-closed kind i n past (some k) h = omega (arith, h k refl)

q_literal-stop :
    (i n : ℕ) (text : List ℕ)
    → i + 2 + length text ≡ n
    → min (skip_q_literal i n text) n ≡ (q_region i n text).stop
unfolding skip_q_literal q_region
q_literal-stop i n [] h = omega arith
q_literal-stop i n (opener ∷ rest) h =
    or_end-closed q_literal i n 2 (find_pair (q_closer opener) 39 (i + 3) rest)
      λ k e. omega (arith, find_pair_bounds (q_closer opener) 39 (i + 3) rest k e)

or_end-closed_zero :
    (kind : RegionType) (i n : ℕ) (o : Option ℕ)
    → ((k : ℕ) → o ≡ some k → k ≤ n)
    → min (or_end n o) n ≡ (closed kind i n 0 o).stop
unfolding closed
or_end-closed_zero kind i n none h = omega arith
or_end-closed_zero kind i n (some k) h = omega (arith, h k refl)

skip_from-region_from :
    (i n : ℕ) (text : List ℕ)
    → i + length text ≡ n
    → Agree n (region_from i n text) (skip_from i n text)
unfolding region_from skip_from skip_quoted
skip_from-region_from i n [] h = tt
skip_from-region_from i n (c ∷ rest) h = elim (Bool-cases (c == b'-' && is_at 0 rest b'-')) [
  | inl t ↦
      let more = tail_length rest b'-' (ground arith) in
      rw t (omega (arith, line_end_bounds (i + 2) (drop 1 rest)))
  | inr t ↦ elim (Bool-cases (c == b'/' && is_at 0 rest b'*')) [
    | inl t2 ↦
        let more = tail_length rest b'*' (ground arith) in
        rw (t, t2)
          (or_end-closed block_comment i n 2 (find_pair b'*' b'/' (i + 2) (drop 1 rest))
            λ k e. omega (arith, find_pair_bounds b'*' b'/' (i + 2) (drop 1 rest) k e))
    | inr t2 ↦ elim (Bool-cases (c == 39 || c == 34)) [
      | inl t3 ↦
          let no_q : ((c == b'q' || c == b'Q') && is_at 0 rest 39) ≡ false = ground arith in
          rw (t, t2, no_q, t3)
            (or_end-closed_zero (quote_kind c) i n (find_quote c (i + 1) rest)
              λ k e. omega (arith, find_quote_bounds c (i + 1) rest k e))
      | inr t3 ↦ elim (Bool-cases ((c == b'q' || c == b'Q') && is_at 0 rest 39)) [
        | inl t4 ↦
            rw (t, t2, t3, t4)
              (q_literal-stop i n (drop 1 rest) (omega (arith, tail_length rest 39 (ground arith))))
        | inr t4 ↦ rw (t, t2, t3, t4) tt
      ]
    ]
  ]
]

-- At every index of the SQL, the rewriter skips a region exactly where the script scanner sees
-- one, and goes on where that region stops (or behind the end, which ends its loop).
pub skip_from-region_at :
    (sql : List ℕ) (i : ℕ)
    → i ≤ length sql
    → Agree (length sql) (region_at sql i) (skip_from i (length sql) (drop i sql))
unfolding region_at
skip_from-region_at sql i h =
    skip_from-region_from i (length sql) (drop i sql) (omega (arith, length-drop i sql))

-- So skipping moves forward.
pub skip_from-progress :
    (sql : List ℕ) (i j : ℕ)
    → i ≤ length sql
    → skip_from i (length sql) (drop i sql) ≡ some j
    → i < j
skip_from-progress sql i j h e = elim (Option-cases (region_at sql i)) [
  | inl p ↦ absurd (subst₂ (Agree (length sql)) p e (skip_from-region_at sql i h))
  | inr (r, p) ↦
      let stops : min j (length sql) ≡ r.stop =
        subst₂ (Agree (length sql)) p e (skip_from-region_at sql i h) in
      omega (arith, (region_at-InText sql i r p).progress)
]

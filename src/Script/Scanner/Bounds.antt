-- ===== src/Script/Scanner/Bounds.antt =====
-- Every region starts where it is asked for, is not empty and stays within the text.
use fast_firebird.Base.{
  ℕ, suc, ◌+◌, ◌≤◌, ◌<◌, ◌≡◌, refl, subst, inl, inr, ◌≢◌, true, false, ◌&&◌, ◌||◌, Option, none,
  some, List, [], ◌∷◌, ◌==◌, length, drop, drop_all, leb, length-drop, arith, Bool-cases,
}
use fast_firebird.Script.Scanner.{
  RegionType, line_comment, block_comment, q_literal, Region, is_at, line_end, find_pair,
  find_quote, q_closer, closed, quote_kind, q_region, region_from, region_at,
}

pub line_end_bounds :
    (j : ℕ) (text : List ℕ) → (j ≤ line_end j text) × (line_end j text ≤ j + length text)
unfolding line_end
line_end_bounds j [] = omega arith
line_end_bounds j (c ∷ rest) = ground (arith, line_end_bounds (suc j) rest)

pub find_pair_bounds :
    (a b j : ℕ) (text : List ℕ) (k : ℕ)
    → find_pair a b j text ≡ some k
    → (j ≤ k) × (k + 2 ≤ j + length text)
unfolding find_pair
find_pair_bounds a b j [] k h = cc
find_pair_bounds a b j (c ∷ []) k h = ground arith
find_pair_bounds a b j (c ∷ d ∷ rest) k h =
    ground (arith, find_pair_bounds a b (suc j) (d ∷ rest) k)

pub find_quote_bounds :
    (q j : ℕ) (text : List ℕ) (k : ℕ)
    → find_quote q j text ≡ some k
    → (j < k) × (k ≤ j + length text)
unfolding find_quote
find_quote_bounds q j [] k h = cc
find_quote_bounds q j (c ∷ []) k h = ground arith
find_quote_bounds q j (c ∷ d ∷ rest) k h =
    ground
      (arith, find_quote_bounds q (suc (suc j)) rest k, find_quote_bounds q (suc j) (d ∷ rest) k)

-- What every region of a text of length n satisfies at i.
pub record InText (n i : ℕ) (r : Region) : Type 0 where
  pub starts : r.start ≡ i
  pub progress : i < r.stop
  pub within : r.stop ≤ n
  pub cut_off : r.terminated ≡ false → r.stop ≡ n
  pub named : r.terminated ≡ false → r.kind ≢ line_comment

closed-InText :
    (kind : RegionType) (i n past : ℕ) (o : Option ℕ)
    → kind ≢ line_comment
    → i < n
    → ((k : ℕ) → o ≡ some k → (i < k + past) × (k + past ≤ n))
    → InText n i (closed kind i n past o)
unfolding closed
closed-InText kind i n past none l h f = record {
  starts = refl;
  progress = h;
  within = omega arith;
  cut_off = λ e. refl;
  named = λ e. l;
}
closed-InText kind i n past (some k) l h f = record {
  starts = refl;
  progress = (f k refl).0;
  within = (f k refl).1;
  cut_off = λ e. cc;
  named = λ e. cc;
}

quote_kind-ne : (c : ℕ) → quote_kind c ≢ line_comment
quote_kind-ne c = ground arith

q_region-InText :
    (i n : ℕ) (text : List ℕ) → i + 2 + length text ≡ n → InText n i (q_region i n text)
unfolding q_region
q_region-InText i n [] h = record {
  starts = refl;
  progress = omega arith;
  within = omega arith;
  cut_off = λ e. refl;
  named = λ e p. cc;
}
q_region-InText i n (opener ∷ rest) h =
    closed-InText q_literal i n 2 (find_pair (q_closer opener) 39 (i + 3) rest) (λ p. cc)
      (omega arith) λ k e. omega (arith, find_pair_bounds (q_closer opener) 39 (i + 3) rest k e)

-- `P` of the region, where there is one.
abbrev pub OnRegion : (Region → Type 0) → Option Region → Type 0
OnRegion P none = Unit {0}
OnRegion P (some r) = P r

-- A case analysis of `region_from` on the test that passes.
pub region_cases :
    (P : Region → Type 0) (i n c : ℕ) (rest : List ℕ)
    → (is_at 0 rest b'-' ≡ true
        → P (record {
          kind = line_comment;
          start = i;
          stop = line_end (i + 2) (drop 1 rest);
          terminated = true;
        }))
    → (is_at 0 rest b'*' ≡ true
        → P (closed block_comment i n 2 (find_pair b'*' b'/' (i + 2) (drop 1 rest))))
    → (is_at 0 rest 39 ≡ true → P (q_region i n (drop 1 rest)))
    → (((c == 39 || c == 34) ≡ true) → P (closed (quote_kind c) i n 0 (find_quote c (i + 1) rest)))
    → OnRegion P (region_from i n (c ∷ rest))
unfolding region_from
region_cases P i n c rest line block q quoted = elim (Bool-cases (c == b'-' && is_at 0 rest b'-')) [
  | inl t ↦ rw t (line (ground arith))
  | inr t ↦ elim (Bool-cases (c == b'/' && is_at 0 rest b'*')) [
    | inl t2 ↦ rw (t, t2) (block (ground arith))
    | inr t2 ↦ elim (Bool-cases ((c == b'q' || c == b'Q') && is_at 0 rest 39)) [
      | inl t3 ↦ rw (t, t2, t3) (q (ground arith))
      | inr t3 ↦ elim (Bool-cases (c == 39 || c == 34)) [
        | inl t4 ↦ rw (t, t2, t3, t4) (quoted t4)
        | inr t4 ↦ rw (t, t2, t3, t4) tt
      ]
    ]
  ]
]

-- A character that is there leaves one less.
pub tail_length :
    (rest : List ℕ) (x : ℕ) → is_at 0 rest x ≡ true → length rest ≡ suc (length (drop 1 rest))
tail_length [] x h = cc
tail_length (d ∷ rest) x h = refl

pub region_from-InText :
    (i n : ℕ) (text : List ℕ) → i + length text ≡ n → OnRegion (InText n i) (region_from i n text)
region_from-InText i n [] h = unfold region_from in tt
region_from-InText i n (c ∷ rest) h =
    region_cases (InText n i) i n c rest
      (λ t.
        let more = tail_length rest b'-' t in
        let ends = line_end_bounds (i + 2) (drop 1 rest) in
        record {
          starts = refl;
          progress = omega arith;
          within = omega arith;
          cut_off = λ q. cc;
          named = λ q. cc;
        })
      (λ t.
        let more = tail_length rest b'*' t in
        closed-InText block_comment i n 2 (find_pair b'*' b'/' (i + 2) (drop 1 rest)) (λ p. cc)
          (omega arith)
          (λ k p. omega (arith, find_pair_bounds b'*' b'/' (i + 2) (drop 1 rest) k p)))
      (λ t. q_region-InText i n (drop 1 rest) (omega (arith, tail_length rest 39 t)))
      (λ t.
        closed-InText (quote_kind c) i n 0 (find_quote c (i + 1) rest) (quote_kind-ne c)
          (omega arith) (λ k p. omega (arith, find_quote_bounds c (i + 1) rest k p)))

-- A region that starts at i is not empty, lies within the text, and reaches its end if it is not
-- terminated.
pub region_at-InText :
    (text : List ℕ) (i : ℕ) (r : Region) → region_at text i ≡ some r → InText (length text) i r
unfolding region_at
region_at-InText text i r e = elim (Bool-cases (leb i (length text))) [
  | inl inside ↦
      subst (OnRegion (InText (length text) i)) e
        (region_from-InText i (length text) (drop i text) (ground (arith, length-drop i text)))
  | inr behind ↦
      let e' : none ≡ some r =
        unfold region_from in
        subst (λ t. region_from i (length text) t ≡ some r) (drop_all i text (ground arith)) e in
      cc
]

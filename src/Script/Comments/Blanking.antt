-- ===== src/Script/Comments/Blanking.antt =====
-- What `stripComments` does to each character, and to the position of each.
use fast_firebird.Base.{
  ℕ, zero, suc, ◌+◌, ◌≤◌, ◌<◌, ◌≡◌, refl, sym, ap, ap₂, ◌∙◌, Bool, true, false, ◌&&◌, ◌||◌, List,
  [], ◌∷◌, ◌++◌, map, ltb, leb, if◌then◌else◌, length, drop, length-drop, slice, drop-slice,
  length-slice, arith,
}
use fast_firebird.Script.Comments.{
  Parsed, ok, unterminated, set_term_without_terminator, set_term_without_new, stuck, ◌>>=◌,
  comment_ranges, blank, blanked, strip_comments, moved, line_col, line_col_at,
}
use fast_firebird.Script.Comments.Ranges.{Ordered, comment_ranges-Ordered}

abbrev pub in_ranges : ℕ → List (ℕ × ℕ) → Bool
in_ranges i [] = false
in_ranges i ((s, e) ∷ ranges) = (leb s i && ltb i e) || in_ranges i ranges

-- The specification: a character in a comment is blanked, and every other one stays.
abbrev pub masked : ℕ → List (ℕ × ℕ) → List ℕ → List ℕ
masked i ranges [] = []
masked i ranges (c ∷ text) =
    (if in_ranges i ranges then blank c else c) ∷ masked (suc i) ranges text

masked-append :
    (i : ℕ) (ranges : List (ℕ × ℕ)) (xs ys : List ℕ)
    → masked i ranges (xs ++ ys) ≡ masked i ranges xs ++ masked (length xs + i) ranges ys
masked-append i ranges [] ys = ap (λ k. masked k ranges ys) (omega arith)
masked-append i ranges (x ∷ xs) ys =
    ap (λ t. (if in_ranges i ranges then blank x else x) ∷ t)
      (masked-append (suc i) ranges xs ys
        ∙ ap (λ k. masked (suc i) ranges xs ++ masked k ranges ys) (omega arith))

in_ranges-before :
    (n i p : ℕ) (ranges : List (ℕ × ℕ)) → i < p → Ordered n p ranges → in_ranges i ranges ≡ false
in_ranges-before n i p [] h k = refl
in_ranges-before n i p ((s, e) ∷ ranges) h k = ground (arith, in_ranges-before n i e ranges)

-- Before the first range nothing changes.
masked-before :
    (n i p : ℕ) (ranges : List (ℕ × ℕ)) (text : List ℕ)
    → i + length text ≤ p
    → Ordered n p ranges
    → masked i ranges text ≡ text
masked-before n i p ranges [] h k = refl
masked-before n i p ranges (c ∷ text) h k =
    rw (in_ranges-before n i p ranges (omega arith) k)
      (ap (λ t. c ∷ t) (masked-before n (suc i) p ranges text (omega arith) k))

-- Within the first range everything is blanked.
masked-within :
    (i s e : ℕ) (ranges : List (ℕ × ℕ)) (text : List ℕ)
    → s ≤ i
    → i + length text ≤ e
    → masked i ((s, e) ∷ ranges) text ≡ map blank text
masked-within i s e ranges [] h k = refl
masked-within i s e ranges (c ∷ text) h k =
    let low : leb s i ≡ true = ground arith in
    let high : ltb i e ≡ true = ground arith in
    rw (low, high)
      (ap (λ t. blank c ∷ t) (masked-within (suc i) s e ranges text (omega arith) (omega arith)))

-- Behind the first range it plays no part.
masked-behind :
    (i s e : ℕ) (ranges : List (ℕ × ℕ)) (text : List ℕ)
    → e ≤ i
    → masked i ((s, e) ∷ ranges) text ≡ masked i ranges text
masked-behind i s e ranges [] h = refl
masked-behind i s e ranges (c ∷ text) h =
    let high : ltb i e ≡ false = ground arith in
    let out : (leb s i && ltb i e) ≡ false = ground arith in
    rw out (
      ap (λ t. (if in_ranges i ranges then blank c else c) ∷ t)
        (masked-behind (suc i) s e ranges text (omega arith)))

Ordered-le : (n p : ℕ) (ranges : List (ℕ × ℕ)) → Ordered n p ranges → p ≤ n
Ordered-le n p [] h = h
Ordered-le n p ((s, e) ∷ ranges) h = omega (arith, Ordered-le n e ranges h.2)

-- The text from the start of the first range on, and then that from its end on.
masked-range :
    (s e : ℕ) (ranges : List (ℕ × ℕ)) (sql : List ℕ)
    → s < e
    → e ≤ length sql
    → masked s ((s, e) ∷ ranges) (drop s sql)
      ≡ map blank (slice s e sql) ++ masked e ranges (drop e sql)
masked-range s e ranges sql h k =
    let all = (s, e) ∷ ranges in
    let size = length-slice s e sql (omega arith) k in
    ap (masked s all) (drop-slice s e sql (omega arith))
    ∙ masked-append s all (slice s e sql) (drop e sql)
    ∙ ap₂ (λ x y. x ++ y)
        (masked-within s s e ranges (slice s e sql) (omega arith) (omega (arith, size)))
        (ap (λ n. masked n all (drop e sql)) (omega (arith, size))
          ∙ masked-behind e s e ranges (drop e sql) (omega arith))

masked-gap :
    (prev s e : ℕ) (ranges : List (ℕ × ℕ)) (sql : List ℕ)
    → Ordered (length sql) prev ((s, e) ∷ ranges)
    → masked prev ((s, e) ∷ ranges) (drop prev sql)
      ≡ slice prev s sql ++ masked s ((s, e) ∷ ranges) (drop s sql)
masked-gap prev s e ranges sql h =
    let all = (s, e) ∷ ranges in
    let size =
      length-slice prev s sql h.0 (omega (arith, h.1, Ordered-le (length sql) e ranges h.2)) in
    ap (masked prev all) (drop-slice prev s sql h.0)
    ∙ masked-append prev all (slice prev s sql) (drop s sql)
    ∙ ap₂ (λ x y. x ++ y)
        (masked-before (length sql) prev s all (slice prev s sql) (omega (arith, size, h.0))
          (omega arith, h.1, h.2))
        (ap (λ n. masked n all (drop s sql)) (omega (arith, size, h.0)))

blanked-masked :
    (prev : ℕ) (ranges : List (ℕ × ℕ)) (sql : List ℕ)
    → Ordered (length sql) prev ranges
    → blanked prev ranges sql ≡ masked prev ranges (drop prev sql)
unfolding blanked
blanked-masked prev [] sql h = sym (
    masked-before (length sql) prev (prev + length (drop prev sql)) [] (drop prev sql) (omega arith)
      (omega (arith, length-drop prev sql)))
blanked-masked prev ((s, e) ∷ ranges) sql h = sym (
    masked-gap prev s e ranges sql h
    ∙ ap (λ t. slice prev s sql ++ t)
        (masked-range s e ranges sql h.1 (Ordered-le (length sql) e ranges h.2)
          ∙ ap (λ t. map blank (slice s e sql) ++ t) (sym (blanked-masked e ranges sql h.2))))

>>=-eq-ok {ℓ κ} :
    {A : Type ℓ} {B : Type κ} (m : Parsed A) (f : A → B) {b : B}
    → (m >>= λ a. ok (f a)) ≡ ok b
    → (a : A) × (m ≡ ok a) × (f a ≡ b)
>>=-eq-ok (ok a) f h = (a, refl, cc)
>>=-eq-ok (unterminated k l c) f h = cc
>>=-eq-ok (set_term_without_terminator l c) f h = cc
>>=-eq-ok (set_term_without_new l c) f h = cc
>>=-eq-ok stuck f h = cc

-- Stripping blanks exactly the characters of the comment ranges, each to a space unless it ends a
-- line, and leaves every other character where it was.
pub strip_comments-masked :
    (sql out : List ℕ)
    → strip_comments sql ≡ ok out
    → (ranges : List (ℕ × ℕ)) × (comment_ranges sql ≡ ok ranges) × (out ≡ masked 0 ranges sql)
unfolding strip_comments
strip_comments-masked sql out e =
    let (ranges, r, b) = >>=-eq-ok (comment_ranges sql) (λ ranges. blanked 0 ranges sql) e in
    (ranges, r, sym b ∙ blanked-masked 0 ranges sql (comment_ranges-Ordered sql ranges r))

moved-masked :
    (i : ℕ) (ranges : List (ℕ × ℕ)) (c : ℕ) (at : ℕ × ℕ)
    → moved (if in_ranges i ranges then blank c else c) at ≡ moved c at
moved-masked i ranges c at = ground arith

line_col-masked :
    (i : ℕ) (ranges : List (ℕ × ℕ)) (text : List ℕ) (at : ℕ × ℕ) (k : ℕ)
    → line_col at (masked i ranges text) k ≡ line_col at text k
unfolding line_col
line_col-masked i ranges text at zero = refl
line_col-masked i ranges [] at (suc k) = refl
line_col-masked i ranges (c ∷ text) at (suc k) =
    rw (moved-masked i ranges c at) (line_col-masked (suc i) ranges text (moved c at) k)

length-masked :
    (i : ℕ) (ranges : List (ℕ × ℕ)) (text : List ℕ) → length (masked i ranges text) ≡ length text
length-masked i ranges [] = refl
length-masked i ranges (c ∷ text) = ap suc (length-masked (suc i) ranges text)

-- Stripping keeps the length, and every index keeps its line and column.
pub strip_comments_positions :
    (sql out : List ℕ)
    → strip_comments sql ≡ ok out
    → (length out ≡ length sql) × ((k : ℕ) → line_col_at out k ≡ line_col_at sql k)
unfolding line_col_at
strip_comments_positions sql out e =
    let (ranges, r, b) = strip_comments-masked sql out e in
    (
      ap length b ∙ length-masked 0 ranges sql,
      λ k. ap (λ t. line_col (1, 1) t k) b ∙ line_col-masked 0 ranges sql (1, 1) k,
    )

-- ===== src/Script/Parser/Cursors.antt =====
-- Cursors of the script parser: what is true of every one, and of the outcome of a loop.
use fast_firebird.Base.{
  some, ℕ, zero, suc, ◌+◌, ◌≤◌, ◌<◌, ◌≡◌, refl, sym, true, List, [], ◌∷◌, length, drop, length-drop,
  arith, subst,
}
use fast_firebird.Script.Comments.{
  Parsed, ok, unterminated, set_term_without_terminator, set_term_without_new, stuck, ◌>>=◌,
  line_col, line_col_at, moved,
}
use fast_firebird.Script.Parser.{Cursor, advance, starts_with, find_terminator}

-- A loop that did not run out of fuel, and what holds of its result if it has one.
abbrev pub Ended {ℓ} : {A : Type ℓ} → (A → Type 0) → Parsed A → Type 0
Ended P (ok a) = P a
Ended P (unterminated k l c) = Unit {0}
Ended P (set_term_without_terminator l c) = Unit {0}
Ended P (set_term_without_new l c) = Unit {0}
Ended P stuck = ⊥

pub Ended-bind {ℓ κ} :
    {A : Type ℓ} {B : Type κ} {P : A → Type 0} (Q : B → Type 0) (r : Parsed A) (f : A → Parsed B)
    → Ended P r
    → ((a : A) → P a → Ended Q (f a))
    → Ended Q (r >>= f)
Ended-bind Q (ok a) f h k = k a h
Ended-bind Q (unterminated c l d) f h k = tt
Ended-bind Q (set_term_without_terminator l c) f h k = tt
Ended-bind Q (set_term_without_new l c) f h k = tt
Ended-bind Q stuck f h k = h

pub Ended-map {ℓ} :
    {A : Type ℓ} {P : A → Type 0} (Q : A → Type 0) (r : Parsed A)
    → ((a : A) → P a → Q a)
    → Ended P r
    → Ended Q r
Ended-map Q (ok a) f h = f a h
Ended-map Q (unterminated c l d) f h = tt
Ended-map Q (set_term_without_terminator l c) f h = tt
Ended-map Q (set_term_without_new l c) f h = tt
Ended-map Q stuck f h = h

line_col_nil : (at : ℕ × ℕ) (k m : ℕ) → line_col (line_col at [] k) [] m ≡ line_col at [] (k + m)
unfolding line_col
line_col_nil at zero m = let e : 0 + m ≡ m = omega arith in rw e refl
line_col_nil at (suc k) m =
    let e : suc k + m ≡ suc (k + m) = omega arith in rw e (line_col_nil (at.0, at.1 + 1) k m)

line_col_step :
    (at : ℕ × ℕ) (text : List ℕ) (k m : ℕ)
    → line_col (line_col at text k) (drop k text) m ≡ line_col at text (k + m)
unfolding line_col
line_col_step at text zero m = let e : 0 + m ≡ m = omega arith in rw e refl
line_col_step at [] (suc k) m = line_col_nil at (suc k) m
line_col_step at (c ∷ text) (suc k) m =
    let e : suc k + m ≡ suc (k + m) = omega arith in rw e (line_col_step (moved c at) text k m)

module _ (script : List ℕ) where
  -- The line and the column are those of the index, which is within the script.
  pub record IsPlaced (at : Cursor) : Type 0 where
    pub within : at.index ≤ length script
    pub placed : at.place ≡ line_col_at script at.index

  pub advance-IsPlaced :
      (count : ℕ) (at : Cursor)
      → IsPlaced at
      → at.index + count ≤ length script
      → IsPlaced (advance script count at)
  unfolding advance line_col_at
  advance-IsPlaced count at h k = record {
    within = k;
    placed =
        subst
          (λ p. line_col p (drop at.index script) count ≡ line_col (1, 1) script (at.index + count))
          (sym h.placed) (line_col_step (1, 1) script at.index count);
  }

  pub drop-more : (i c : ℕ) (s : List ℕ) → drop i script ≡ c ∷ s → i < length script
  drop-more i c s e =
      let k : length (drop i script) ≡ suc (length s) = cc in omega (arith, length-drop i script)

pub starts_with-length : (s text : List ℕ) → starts_with s text ≡ true → length s ≤ length text
unfolding starts_with
starts_with-length [] text h = omega arith
starts_with-length (c ∷ s) [] h = cc
starts_with-length (c ∷ s) (d ∷ text) h = ground (arith, starts_with-length s text)

pub find_terminator_bounds :
    (s : List ℕ) (j : ℕ) (text : List ℕ) (k : ℕ)
    → find_terminator s j text ≡ some k
    → (j ≤ k) × (k + length s ≤ j + length text)
unfolding find_terminator
find_terminator_bounds s j [] k h = cc
find_terminator_bounds s j (c ∷ rest) k h =
    ground (arith, find_terminator_bounds s (suc j) rest k, starts_with-length s (c ∷ rest))

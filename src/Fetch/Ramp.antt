-- ===== src/Fetch/Ramp.antt =====
-- Bounds of a fetch, and the sizes of the fetches of a long result.
use fast_firebird.Base.{
  ℕ, zero, suc, ◌*◌, ◌/◌, ◌^◌, ◌≤◌, ◌<◌, ◌≡◌, refl, ◌∙◌, List, ◌==◌, max, min, arith, inl, inr,
  Bool-cases, false, leb,
}
use native.Mathlib.Nat.{pow-succ', mul-le-mul_left, mul-le-mul_right, div-mul-le_self}
use fast_firebird.Fetch.{
  SqlVarDesc, target_batch_bytes, min_batch_rows, ramp_start_rows, estimate_row_width,
  next_fetch_count,
}

abbrev pub ceiling : ℕ → ℕ → ℕ
ceiling row_width max_rows = min max_rows (max min_batch_rows (target_batch_bytes / row_width))

-- The count of the fetch after `k` others.
abbrev pub fetch_count : ℕ → ℕ → ℕ → ℕ
fetch_count row_width max_rows zero = next_fetch_count row_width max_rows 0
fetch_count row_width max_rows (suc k) =
    next_fetch_count row_width max_rows (fetch_count row_width max_rows k)

two_pow_positive : (k : ℕ) → 0 < 2 ^ k
two_pow_positive zero = omega arith
two_pow_positive (suc k) = omega (arith, two_pow_positive k, pow-succ' 2 k)

ceiling_positive : (row_width max_rows : ℕ) → 0 < max_rows → 0 < ceiling row_width max_rows
ceiling_positive row_width max_rows h = omega arith

next_after :
    (row_width max_rows prev_count : ℕ)
    → 0 < prev_count
    → next_fetch_count row_width max_rows prev_count
      ≡ min (prev_count * 2) (ceiling row_width max_rows)
unfolding next_fetch_count
next_after row_width max_rows prev_count h =
    let on : (prev_count == 0) ≡ false = ground arith in rw on refl

count_positive :
    (row_width max_rows prev_count : ℕ)
    → 0 < max_rows
    → 0 < next_fetch_count row_width max_rows prev_count
unfolding next_fetch_count
count_positive row_width max_rows prev_count h = ground arith

-- With at least one row allowed, the fetches ask for 40 rows, doubled each time, up to the ceiling
-- of the budget and of the caller.
pub fetch_count_doubles :
    (row_width max_rows k : ℕ)
    → 0 < max_rows
    → fetch_count row_width max_rows k ≡ min (ramp_start_rows * 2 ^ k) (ceiling row_width max_rows)
unfolding next_fetch_count
fetch_count_doubles row_width max_rows zero h = refl
fetch_count_doubles row_width max_rows (suc k) h =
    let before = fetch_count_doubles row_width max_rows k h in
    let some_row : 0 < fetch_count row_width max_rows k =
      omega (arith, before, two_pow_positive k, ceiling_positive row_width max_rows h) in
    next_after row_width max_rows (fetch_count row_width max_rows k) some_row
    ∙ omega (arith, before, pow-succ' 2 k)

next_fetch_count-le :
    (row_width max_rows prev_count : ℕ)
    → next_fetch_count row_width max_rows prev_count ≤ ceiling row_width max_rows
unfolding next_fetch_count
next_fetch_count-le row_width max_rows prev_count = ground arith

-- The ceiling of the budget, in bytes.
wide : (w q : ℕ) → q * w ≤ target_batch_bytes → max 10 q * w ≤ max (10 * w) target_batch_bytes
wide w q h = elim (Bool-cases (leb q 10)) [
  | inl e ↦ let m : max 10 q ≡ 10 = ground arith in rw m (omega arith)
  | inr e ↦ let m : max 10 q ≡ q = ground arith in rw m (omega (arith, h))
]

-- Each fetch of a described result asks for one row at least and for no more than the caller
-- allows, and what it asks for is within the byte budget, or ten rows if these are wider.
pub next_fetch_count_bounds :
    (descs : List SqlVarDesc) (max_rows prev_count : ℕ)
    → 0 < max_rows
    → let width = estimate_row_width descs in
      let count = next_fetch_count width max_rows prev_count in
      (0 < count)
      × (count ≤ max_rows)
      × (count ≤ 16384)
      × (count * width ≤ max (min_batch_rows * width) target_batch_bytes)
unfolding estimate_row_width
next_fetch_count_bounds descs max_rows prev_count h =
    let width = estimate_row_width descs in
    let count = next_fetch_count width max_rows prev_count in
    let quotient = target_batch_bytes / width in
    let fits : quotient * width ≤ target_batch_bytes = div-mul-le_self target_batch_bytes width in
    let not_narrow : 16 ≤ width = omega arith in
    let few : quotient * 16 ≤ quotient * width = mul-le-mul_left quotient not_narrow in
    let below : count ≤ ceiling width max_rows = next_fetch_count-le width max_rows prev_count in
    let budget : count ≤ max 10 quotient = omega (arith, below) in
    (
      count_positive width max_rows prev_count h,
      omega (arith, below),
      omega (arith, budget, few, fits),
      omega (arith, mul-le-mul_right width budget, wide width quotient fits),
    )

-- ===== src/Rows/Bits.antt =====
-- The bits of a null bitmap.
use fast_firebird.Base.{
  ℕ, zero, suc, ◌+◌, ◌*◌, ◌/◌, ◌%◌, ◌<◌, ◌≡◌, refl, sym, false, ◌||◌, List, [], ◌∷◌, ◌==◌, length,
  get_or, set, length-set, replicate, arith, Bool-cases, inl, inr,
}
use fast_firebird.Rows.Reading.{has_bit, get_bit}
use fast_firebird.Rows.Params.{or_bit, set_bit}

has_bit-or_bit : (j k b : ℕ) → has_bit j (or_bit k b) ≡ ((j == k) || has_bit j b)
unfolding has_bit or_bit
has_bit-or_bit zero zero b = ground arith
has_bit-or_bit zero (suc k) b = ground arith
has_bit-or_bit (suc j) zero b =
    let z : (suc j == 0) ≡ false = ground arith in
    elim (Bool-cases (b % 2 == 1)) [
      | inl e ↦ rw (e, z, or_bit) refl
      | inr e ↦ let h : (b + 1) / 2 ≡ b / 2 = ground arith in rw (e, z, or_bit) (rw h refl)
    ]
has_bit-or_bit (suc j) (suc k) b =
    let e : (2 * or_bit k (b / 2) + b % 2) / 2 ≡ or_bit k (b / 2) = omega arith in
    let z : (suc j == suc k) ≡ (j == k) = ground arith in rw (e, z) (has_bit-or_bit j k (b / 2))

get_or-set_self : (xs : List ℕ) (i v d : ℕ) → i < length xs → get_or (set xs i v) i d ≡ v
get_or-set_self [] i v d h = absurd (omega (arith, h))
get_or-set_self (x ∷ xs) zero v d h = refl
get_or-set_self (x ∷ xs) (suc i) v d h = get_or-set_self xs i v d (omega arith)

get_or-set_ne :
    (xs : List ℕ) (i j v d : ℕ) → (i == j) ≡ false → get_or (set xs i v) j d ≡ get_or xs j d
get_or-set_ne [] i j v d h = refl
get_or-set_ne (x ∷ xs) zero zero v d h = absurd (ground arith)
get_or-set_ne (x ∷ xs) zero (suc j) v d h = refl
get_or-set_ne (x ∷ xs) (suc i) zero v d h = refl
get_or-set_ne (x ∷ xs) (suc i) (suc j) v d h = get_or-set_ne xs i j v d (ground arith)

-- Setting a bit within the bitmap sets that bit and no other.
pub get_bit-set_bit :
    (bitmap : List ℕ) (i j : ℕ)
    → i / 8 < length bitmap
    → get_bit (set_bit bitmap i) j ≡ ((j == i) || get_bit bitmap j)
unfolding get_bit set_bit
get_bit-set_bit bitmap i j h = elim (Bool-cases (i / 8 == j / 8)) [
  | inl e ↦
      let q : i / 8 ≡ j / 8 = ground arith in
      let z : (j % 8 == i % 8) ≡ (j == i) = ground arith in
      rw
        (
          sym q,
          get_or-set_self bitmap (i / 8) (or_bit (i % 8) (get_or bitmap (i / 8) 0)) 0 h,
          has_bit-or_bit (j % 8) (i % 8) (get_or bitmap (i / 8) 0),
          z,
        )
        refl
  | inr e ↦
      let z : (j == i) ≡ false = ground arith in
      rw (get_or-set_ne bitmap (i / 8) (j / 8) (or_bit (i % 8) (get_or bitmap (i / 8) 0)) 0 e, z)
        refl
]

pub length-set_bit : (bitmap : List ℕ) (i : ℕ) → length (set_bit bitmap i) ≡ length bitmap
unfolding set_bit
length-set_bit bitmap i = length-set bitmap (i / 8) (or_bit (i % 8) (get_or bitmap (i / 8) 0))

has_bit_zero : (k : ℕ) → has_bit k 0 ≡ false
unfolding has_bit
has_bit_zero zero = refl
has_bit_zero (suc k) = has_bit_zero k

get_or-replicate_same : (n i z : ℕ) → get_or (replicate n z) i z ≡ z
get_or-replicate_same zero i z = refl
get_or-replicate_same (suc n) zero z = refl
get_or-replicate_same (suc n) (suc i) z = get_or-replicate_same n i z

pub get_bit-replicate : (n i : ℕ) → get_bit (replicate n 0) i ≡ false
unfolding get_bit
get_bit-replicate n i = rw (get_or-replicate_same n (i / 8) 0) (has_bit_zero (i % 8))

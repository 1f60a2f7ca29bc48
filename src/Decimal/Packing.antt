-- ===== src/Decimal/Packing.antt =====
-- The declets of a coefficient, packed and unpacked.
use native.Mathlib.Nat.{div-div-eq-div-mul, pow-succ', mul_assoc, mul_comm, add-mul}
use fast_firebird.Base.{
  ℕ, zero, suc, ◌+◌, ◌-◌, ◌*◌, ◌/◌, ◌%◌, ◌^◌, ◌<◌, ◌≤◌, ◌≡◌, ◌∙◌, refl, sym, ap, subst, true, List,
  [], ◌∷◌, ◌++◌, length, drop, get_or, arith,
}
use fast_firebird.Decimal.{encode_declet, declet_of, dpd_to_int, declet_digits, three}
use fast_firebird.Decimal.Declets.{declet_of-bound, dpd_to_int-declet_of}
use fast_firebird.Decimal.Writing.{are_digits, pack_digits}

-- The number of the first three digits.
abbrev first_three : List ℕ → ℕ
first_three rest =
    (get_or rest 0 0 - 48) * 100 + (get_or rest 1 0 - 48) * 10 + (get_or rest 2 0 - 48)

abbrev first_declet : List ℕ → ℕ
first_declet rest =
    encode_declet (get_or rest 0 0 - 48) (get_or rest 1 0 - 48) (get_or rest 2 0 - 48)

first_lem :
    (a b c : ℕ) (s : List ℕ)
    → are_digits (a ∷ b ∷ c ∷ s) ≡ true
    → (first_three (a ∷ b ∷ c ∷ s) < 1000)
      × (declet_of (first_three (a ∷ b ∷ c ∷ s)) ≡ first_declet (a ∷ b ∷ c ∷ s))
      × (three (first_three (a ∷ b ∷ c ∷ s)) ≡ a ∷ b ∷ c ∷ [])
      × (are_digits s ≡ true)
unfolding are_digits
first_lem a b c s h =
    let l : (48 ≤ a)
        × (a ≤ 57)
        × (48 ≤ b)
        × (b ≤ 57)
        × (48 ≤ c)
        × (c ≤ 57)
        × (are_digits s ≡ true) =
      ground arith in
    let n = (a - 48) * 100 + (b - 48) * 10 + (c - 48) in
    let x : n / 100 ≡ a - 48 = omega (arith, l.0, l.1, l.2, l.3, l.4, l.5) in
    let y : n / 10 % 10 ≡ b - 48 = omega (arith, l.0, l.1, l.2, l.3, l.4, l.5) in
    let z : n % 10 ≡ c - 48 = omega (arith, l.0, l.1, l.2, l.3, l.4, l.5) in
    let x' : n / 100 + 48 ≡ a = omega (arith, x, l.0) in
    let y' : n / 10 % 10 + 48 ≡ b = omega (arith, y, l.2) in
    let z' : n % 10 + 48 ≡ c = omega (arith, z, l.4) in
    (omega (arith, l.0, l.1, l.2, l.3, l.4, l.5), rw (x, y, z) refl, rw (x', y', z') refl, l.6)

declet_bound :
    (a b c : ℕ) (s : List ℕ)
    → are_digits (a ∷ b ∷ c ∷ s) ≡ true
    → first_declet (a ∷ b ∷ c ∷ s) < 1024
declet_bound a b c s h =
    let k = first_lem a b c s h in
    subst (λ z. z < 1024) k.1 (declet_of-bound (first_three (a ∷ b ∷ c ∷ s)) k.0)

pub pack_quotient :
    (n : ℕ) (rest : List ℕ) (v : ℕ)
    → length rest ≡ 3 * n
    → are_digits rest ≡ true
    → pack_digits n rest v / 1024 ^ n ≡ v
unfolding pack_digits
pack_quotient zero rest v l h = omega arith
pack_quotient (suc n) [] v l h = absurd (omega arith)
pack_quotient (suc n) (a ∷ []) v l h = absurd (omega arith)
pack_quotient (suc n) (a ∷ b ∷ []) v l h = absurd (omega arith)
pack_quotient (suc n) (a ∷ b ∷ c ∷ s) v l h =
    let k = first_lem a b c s h in
    let e = first_declet (a ∷ b ∷ c ∷ s) in
    let ih = pack_quotient n s (v * 1024 + e) (omega (arith, l)) k.3 in
    ap (λ p. pack_digits n s (v * 1024 + e) / p) (pow-succ' 1024 n ∙ mul_comm 1024 (1024 ^ n))
    ∙ sym (div-div-eq-div-mul (pack_digits n s (v * 1024 + e)) (1024 ^ n) 1024)
    ∙ ap (λ q. q / 1024) ih
    ∙ omega (arith, declet_bound a b c s h)

pub pack_split :
    (n : ℕ) (rest : List ℕ) (v : ℕ) → pack_digits n rest v ≡ v * 1024 ^ n + pack_digits n rest 0
unfolding pack_digits
pack_split zero rest v = omega arith
pack_split (suc n) rest v =
    let e = first_declet rest in
    let r = drop 3 rest in
    let p = 1024 ^ n in
    let one = pack_split n r (v * 1024 + e) in
    let two = pack_split n r (0 * 1024 + e) in
    let x : (v * 1024 + e) * p ≡ v * (1024 ^ suc n) + e * p =
      add-mul (v * 1024) e p
      ∙ ap (λ q. q + e * p) (mul_assoc v 1024 p ∙ ap (λ q. v * q) (sym (pow-succ' 1024 n))) in
    let y : (0 * 1024 + e) * p ≡ e * p = ap (λ q. q * p) (omega arith) in
    omega (arith, one, two, x, y)

declet_step :
    (n v e : ℕ) (ds rest : List ℕ)
    → v / 1024 ^ n % 1024 ≡ e
    → three (dpd_to_int e) ≡ ds
    → declet_digits n v ≡ rest
    → declet_digits (suc n) v ≡ ds ++ rest
unfolding declet_digits
declet_step n v e ds rest p q r = rw (p, r, declet_digits) (ap (λ z. z ++ rest) q)

-- The digits that were packed are read back.
pub declet_digits-pack_digits :
    (n : ℕ) (rest : List ℕ) (v : ℕ)
    → length rest ≡ 3 * n
    → are_digits rest ≡ true
    → declet_digits n (pack_digits n rest v) ≡ rest
unfolding pack_digits declet_digits
declet_digits-pack_digits zero [] v l h = refl
declet_digits-pack_digits zero (a ∷ s) v l h = absurd (omega arith)
declet_digits-pack_digits (suc n) [] v l h = absurd (omega arith)
declet_digits-pack_digits (suc n) (a ∷ []) v l h = absurd (omega arith)
declet_digits-pack_digits (suc n) (a ∷ b ∷ []) v l h = absurd (omega arith)
declet_digits-pack_digits (suc n) (a ∷ b ∷ c ∷ s) v l h =
    let k = first_lem a b c s h in
    let e = first_declet (a ∷ b ∷ c ∷ s) in
    let packed = pack_digits n s (v * 1024 + e) in
    let q = pack_quotient n s (v * 1024 + e) (omega (arith, l)) k.3 in
    declet_step n packed e (a ∷ b ∷ c ∷ []) s
      (ap (λ z. z % 1024) q ∙ omega (arith, declet_bound a b c s h))
      (ap (λ z. three (dpd_to_int z)) (sym k.1)
        ∙ ap three (dpd_to_int-declet_of (first_three (a ∷ b ∷ c ∷ s)) k.0)
        ∙ k.2)
      (declet_digits-pack_digits n s (v * 1024 + e) (omega (arith, l)) k.3)

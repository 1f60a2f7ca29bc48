-- ===== src/Decimal/Declets.antt =====
-- A declet is read as the three digits that it was made of.
use fast_firebird.Base.{
  ℕ, zero, suc, ◌+◌, ◌*◌, ◌/◌, ◌%◌, ◌<◌, ◌≡◌, ◌≢◌, ◌≤◌, ◌∙◌, refl, sym, ap, subst, ==_iff, Bool,
  true, ◌&&◌, ◌==◌, ltb, if◌then◌else◌, arith, Bool-cases, inl, inr,
}
use fast_firebird.Decimal.{encode_declet, declet_of, last_encoded, dpd_to_int}

-- The digits of a declet, by the form that its bits 1 to 3, 5 and 6 tell.
unfoldable decode_declet : ℕ → ℕ
decode_declet p =
    let m = p % 2 in
    let low = p % 8 / 2 in
    let h = p / 16 % 2 in
    let fg = p / 32 % 4 in
    let d = p / 128 % 2 in
    let bc = p / 256 in
    if p / 8 % 2 == 0
    then (bc * 2 + d) * 100 + (fg * 2 + h) * 10 + (low * 2 + m)
    else if low == 0
    then (bc * 2 + d) * 100 + (fg * 2 + h) * 10 + (8 + m)
    else if low == 1
    then (bc * 2 + d) * 100 + (8 + h) * 10 + (fg * 2 + m)
    else if low == 2
    then (8 + d) * 100 + (fg * 2 + h) * 10 + (bc * 2 + m)
    else if fg == 2
    then (bc * 2 + d) * 100 + (8 + h) * 10 + (8 + m)
    else if fg == 1
    then (8 + d) * 100 + (bc * 2 + h) * 10 + (8 + m)
    else if fg == 0
    then (8 + d) * 100 + (8 + h) * 10 + (bc * 2 + m)
    else (8 + d) * 100 + (8 + h) * 10 + (8 + m)

-- Whether k numbers from n on are ten bits each and are read back.
unfoldable reads_back : ℕ → ℕ → Bool
unfolding decode_declet
reads_back n zero = true
reads_back n (suc k) =
    ltb (declet_of n) 1024 && decode_declet (declet_of n) == n && reads_back (n + 1) k

all_read_back : reads_back 0 1000 ≡ true
unfolding encode_declet reads_back
all_read_back = refl

reads_back-at :
    (n k x : ℕ)
    → reads_back n k ≡ true
    → n ≤ x
    → x < n + k
    → (declet_of x < 1024) × (decode_declet (declet_of x) ≡ x)
unfolding reads_back
reads_back-at n zero x h l m = absurd (omega arith)
reads_back-at n (suc k) x h l m = elim (Bool-cases (n == x)) [
  | inl e ↦
      let q : n ≡ x = ground arith in
      subst (λ z. (declet_of z < 1024) × (decode_declet (declet_of z) ≡ z)) q
        (ground arith, ground arith)
  | inr e ↦ reads_back-at (n + 1) k x (ground arith) (ground arith) (omega arith)
]

pub declet_of-bound : (x : ℕ) → x < 1000 → declet_of x < 1024
declet_of-bound x h = (reads_back-at 0 1000 x all_read_back (omega arith) (omega arith)).0

declet_of-injective : (x y : ℕ) → x < 1000 → y < 1000 → declet_of x ≡ declet_of y → x ≡ y
declet_of-injective x y h k e =
    sym (reads_back-at 0 1000 x all_read_back (omega arith) (omega arith)).1
    ∙ ap decode_declet e
    ∙ (reads_back-at 0 1000 y all_read_back (omega arith) (omega arith)).1

last_encoded-declet_of : (m x : ℕ) → x < m → m ≤ 1000 → last_encoded m (declet_of x) ≡ x
unfolding last_encoded
last_encoded-declet_of zero x h k = absurd (omega arith)
last_encoded-declet_of (suc m) x h k = elim (Bool-cases (declet_of m == declet_of x)) [
  | inl e ↦
      rw (e, last_encoded)
        (declet_of-injective m x (omega arith) (omega arith)
          ((==_iff (declet_of m) (declet_of x)).0 e))
  | inr e ↦
      let n : m ≢ x = λ q. cc (e, (==_iff (declet_of m) (declet_of x)).1 (ap declet_of q)) in
      rw (e, last_encoded) (last_encoded-declet_of m x (ground (arith, n)) (omega arith))
]

-- The table of the declets inverts their encoding, for every number of three digits.
pub dpd_to_int-declet_of : (x : ℕ) → x < 1000 → dpd_to_int (declet_of x) ≡ x
unfolding dpd_to_int
dpd_to_int-declet_of x h = last_encoded-declet_of 1000 x h (omega arith)

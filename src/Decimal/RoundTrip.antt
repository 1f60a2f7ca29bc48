-- ===== src/Decimal/RoundTrip.antt =====
-- A decimal that is written is read back.
use fast_firebird.Base.{
  ℕ, zero, suc, ◌+◌, ◌-◌, ◌*◌, ◌/◌, ◌%◌, ◌^◌, ◌<◌, ◌≤◌, ◌≡◌, ◌∙◌, refl, ap, subst, Bool, true,
  false, Option, none, some, List, [], ◌∷◌, ◌++◌, ◌==◌, leb, ltb, length, replicate, drop, get_or,
  ℤ, pos, negsuc, be_bytes, arith, Bool-cases, inl, inr, length-append, length-replicate, ◌>>=◌,
}
use fast_firebird.Script.Words.{trim}
use fast_firebird.Decimal.{
  DecimalFormat, dec64, dec128, width, bias, exp_cont_bits, declets, minus, strip_zeros, format,
  decode_dec_float,
}
use fast_firebird.Decimal.Writing.{
  plus, Decimal, checked, joined, places, negative, is_e, without_sign, exponent, biased_exp,
  too_high, encode_biased, are_digits, split_at, mantissa, parse_decimal, max_digits, rounded,
  high_bits, lead_bits, pack_digits, encode_fitting, special, encode_dec_float, starts_minus,
}
use fast_firebird.Decimal.Fields.{decode-packed}

-- Digits without a needless zero in front.
pub record IsPlain (s : List ℕ) : Type 0 where
  pub digits : are_digits s ≡ true
  pub some_ : 0 < length s
  pub stripped : strip_zeros s ≡ s

strip_zeros-IsPlain : (s : List ℕ) → are_digits s ≡ true → 0 < length s → IsPlain (strip_zeros s)
unfolding strip_zeros are_digits
strip_zeros-IsPlain [] h k = absurd (omega arith)
strip_zeros-IsPlain (c ∷ []) h k = record { digits = h; some_ = k; stripped = refl }
strip_zeros-IsPlain (c ∷ d ∷ s) h k = elim (Bool-cases (c == 48)) [
  | inl e ↦ rw (e, strip_zeros) (strip_zeros-IsPlain (d ∷ s) (ground arith) (omega arith))
  | inr e ↦
      rw (e, strip_zeros) (record { digits = h; some_ = k; stripped = rw (e, strip_zeros) refl })
]

checked-IsPlain :
    (neg : Bool) (digits : List ℕ) (exp : Option ℤ) (d : Decimal)
    → checked neg digits exp ≡ some d
    → IsPlain d.digits
unfolding checked
checked-IsPlain neg digits exp d h = elim (Bool-cases (length digits == 0)) [
  | inl e ↦ let z = rw (e, checked) at h in absurd (cc (z))
  | inr e ↦ elim (Bool-cases (are_digits digits)) [
    | inr f ↦ let z = rw (e, f, checked) at h in absurd (cc (z))
    | inl f ↦
        let z = rw (e, f, checked) at h in
        let q : strip_zeros digits ≡ d.digits = cc (z) in
        subst IsPlain q (strip_zeros-IsPlain digits f (ground arith))
  ]
]

mantissa-IsPlain :
    (neg : Bool) (s : List ℕ) (exp : Option ℤ) (d : Decimal)
    → mantissa neg s exp ≡ some d
    → IsPlain d.digits
unfolding mantissa
mantissa-IsPlain neg s exp d h =
    let parts = split_at (λ c. c == 46) s in
    checked-IsPlain neg (joined parts) (exp >>= λ e. some (plus e (negative (places parts.1)))) d h

strip_zeros-padded :
    (n : ℕ) (s : List ℕ) → 0 < length s → strip_zeros (replicate n 48 ++ s) ≡ strip_zeros s
unfolding strip_zeros
strip_zeros-padded n [] h = absurd (omega arith)
strip_zeros-padded zero (c ∷ s) h = refl
strip_zeros-padded (suc zero) (c ∷ s) h = refl
strip_zeros-padded (suc (suc n)) (c ∷ s) h = strip_zeros-padded (suc n) (c ∷ s) h

are_digits-padded :
    (n : ℕ) (s : List ℕ) → are_digits s ≡ true → are_digits (replicate n 48 ++ s) ≡ true
unfolding are_digits
are_digits-padded zero s h = h
are_digits-padded (suc n) s h = are_digits-padded n s h

-- The upper bits of an exponent that is in range.
high_bits_lem :
    (fmt : DecimalFormat) (b : ℕ)
    → b < 3 * 2 ^ exp_cont_bits fmt
    → (high_bits fmt (some b) ≡ pos (b / 2 ^ exp_cont_bits fmt))
      × (b / 2 ^ exp_cont_bits fmt < 3)
      × (b % 2 ^ exp_cont_bits fmt < 2 ^ exp_cont_bits fmt)
      × (b / 2 ^ exp_cont_bits fmt * 2 ^ exp_cont_bits fmt + b % 2 ^ exp_cont_bits fmt ≡ b)
unfolding high_bits
high_bits_lem dec64 b h =
    let q : b % 4294967296 ≡ b = omega (arith, h) in
    let t : ltb b 2147483648 ≡ true = ground arith in
    (rw (q, t, high_bits) refl, omega (arith, h), omega arith, omega arith)
high_bits_lem dec128 b h =
    let q : b % 4294967296 ≡ b = omega (arith, h) in
    let t : ltb b 2147483648 ≡ true = ground arith in
    (rw (q, t, high_bits) refl, omega (arith, h), omega arith, omega arith)

pub parse_decimal-IsPlain :
    (input : List ℕ) (d : Decimal) → parse_decimal input ≡ some d → IsPlain d.digits
unfolding parse_decimal
parse_decimal-IsPlain input d h =
    let s = trim input in
    let parts = split_at is_e (without_sign s) in
    mantissa-IsPlain (starts_minus s) parts.0 (exponent parts.1) d h

biased_step :
    (fmt : DecimalFormat) (neg : Bool) (padded : List ℕ) (b n : ℕ)
    → high_bits fmt (some b) ≡ pos n
    → ltb 3 n ≡ false
    → encode_biased fmt neg padded (some b)
      ≡ some (
          be_bytes (width fmt) (
            pack_digits (declets fmt) (drop 1 padded) (
              lead_bits neg (pos n) (get_or padded 0 0 - 48) * 2 ^ exp_cont_bits fmt
              + b % 2 ^ exp_cont_bits fmt)))
unfolding encode_biased too_high
biased_step fmt neg padded b n k l = rw (k, encode_biased) (rw l refl)

fitting_step :
    (fmt : DecimalFormat) (neg : Bool) (digits : List ℕ) (e : ℤ) (b : ℕ)
    → plus e (pos (bias fmt)) ≡ pos b
    → encode_fitting fmt neg digits (some e)
      ≡ encode_biased fmt neg (replicate (max_digits fmt - length digits) 48 ++ digits) (some b)
unfolding encode_fitting biased_exp
fitting_step fmt neg digits e b h = rw (h, encode_fitting, biased_exp) refl

three_false : {n : ℕ} → n < 3 → ltb 3 n ≡ false
three_false h = ground arith

max_false : {n m : ℕ} → n ≤ m → ltb m n ≡ false
max_false h = ground arith

-- The padded digits, their first one apart.
padded_lem :
    (n : ℕ) (s : List ℕ)
    → length s ≡ n + 1
    → are_digits s ≡ true
    → (length (drop 1 s) ≡ n)
      × (are_digits (drop 1 s) ≡ true)
      × (get_or s 0 0 - 48 < 10)
      × ((get_or s 0 0 - 48 + 48) ∷ drop 1 s ≡ s)
unfolding are_digits
padded_lem n [] h k = absurd (omega arith)
padded_lem n (c ∷ s) h k =
    let q : c - 48 + 48 ≡ c = ground arith in
    (omega (arith, h), ground arith, ground arith, ap (λ z. z ∷ s) q)

module _ (fmt : DecimalFormat) (neg : Bool) (digits : List ℕ) (e : ℤ) (b : ℕ) where
  abbrev padded : List ℕ
  padded = replicate (max_digits fmt - length digits) 48 ++ digits

  fitting_read :
      IsPlain digits
      → length digits ≤ max_digits fmt
      → plus e (pos (bias fmt)) ≡ pos b
      → b < 3 * 2 ^ exp_cont_bits fmt
      → (buf : List ℕ) × (encode_fitting fmt neg digits (some e) ≡ some buf)
        × (decode_dec_float buf ≡ format neg digits (minus b (bias fmt)))
  fitting_read p l h k =
      let n = b / 2 ^ exp_cont_bits fmt in
      let x = high_bits_lem fmt b k in
      let size : length padded ≡ 3 * declets fmt + 1 = omega (
        arith,
        length-append (replicate (max_digits fmt - length digits) 48) digits,
        length-replicate {A = ℕ} (max_digits fmt - length digits) 48,
      ) in
      let r =
        padded_lem (3 * declets fmt) padded size
          (are_digits-padded (max_digits fmt - length digits) digits p.digits) in
      (
        be_bytes (width fmt) (
            pack_digits (declets fmt) (drop 1 padded) (
              lead_bits neg (pos n) (get_or padded 0 0 - 48) * 2 ^ exp_cont_bits fmt
              + b % 2 ^ exp_cont_bits fmt)),
        fitting_step fmt neg digits e b h ∙ biased_step fmt neg padded b n x.0 (three_false x.1),
        decode-packed fmt neg n (get_or padded 0 0 - 48) (b % 2 ^ exp_cont_bits fmt) (drop 1 padded)
              x.1 r.2 x.2 r.0 r.1
            ∙ ap
                (λ z.
                  format neg (strip_zeros z)
                    (minus (n * 2 ^ exp_cont_bits fmt + b % 2 ^ exp_cont_bits fmt) (bias fmt)))
                r.3
            ∙ ap
                (λ z.
                  format neg z
                    (minus (n * 2 ^ exp_cont_bits fmt + b % 2 ^ exp_cont_bits fmt) (bias fmt)))
                (strip_zeros-padded (max_digits fmt - length digits) digits p.some_ ∙ p.stripped)
            ∙ ap (λ z. format neg digits (minus z (bias fmt))) x.3,
      )

minus-plus : (e : ℤ) (n b : ℕ) → plus e (pos n) ≡ pos b → minus b n ≡ e
minus-plus (pos a) n b h =
    let q : a + n ≡ b = cc (h) in
    let t : leb n b ≡ true = ground arith in let r : b - n ≡ a = omega (arith, q) in rw (t, r) refl
minus-plus (negsuc a) n b h = elim (Bool-cases (leb (a + 1) n)) [
  | inl t ↦
      let q : n - (a + 1) ≡ b = ground arith in
      let u : leb n b ≡ false = ground arith in
      let r : n - b - 1 ≡ a = ground arith in rw (u, r) refl
  | inr t ↦ absurd (ground arith)
]

step :
    (fmt : DecimalFormat) (value : List ℕ) (d : Decimal)
    → special value fmt ≡ none
    → parse_decimal value ≡ some d
    → ltb (max_digits fmt) (length d.digits) ≡ false
    → encode_dec_float value fmt ≡ encode_fitting fmt d.neg d.digits d.exp
unfolding encode_dec_float rounded
step fmt value d h k l = rw (h, k, l, encode_dec_float) refl

-- A decimal literal with no more digits than the format holds, and an exponent in its range, is
-- encoded, and its bytes are decoded as the literal's sign, digits and exponent written in full.
pub decode_dec_float-encode_dec_float :
    (fmt : DecimalFormat) (value : List ℕ) (d : Decimal) (e : ℤ) (b : ℕ)
    → special value fmt ≡ none
    → parse_decimal value ≡ some d
    → d.exp ≡ some e
    → length d.digits ≤ max_digits fmt
    → plus e (pos (bias fmt)) ≡ pos b
    → b < 3 * 2 ^ exp_cont_bits fmt
    → (buf : List ℕ) × (encode_dec_float value fmt ≡ some buf)
      × (decode_dec_float buf ≡ format d.neg d.digits e)
decode_dec_float-encode_dec_float fmt value d e b s p x l h k =
    let r = fitting_read fmt d.neg d.digits e b (parse_decimal-IsPlain value d p) l h k in
    (
      r.0,
      step fmt value d s p (max_false l) ∙ ap (λ z. encode_fitting fmt d.neg d.digits z) x ∙ r.1,
      r.2 ∙ ap (λ z. format d.neg d.digits z) (minus-plus e (bias fmt) b h),
    )

-- ===== src/Decimal/Fields.antt =====
-- The fields of a decimal, laid out and read.
use fast_firebird.Base.{
  ℕ, ◌+◌, ◌-◌, ◌*◌, ◌/◌, ◌%◌, ◌^◌, ◌<◌, ◌≡◌, ◌∙◌, refl, ap, Bool, true, false, List, ◌∷◌, ◌==◌, leb,
  if◌then◌else◌, length, pos, be_bytes, be_value-be_bytes, arith, Bool-cases, inl, inr,
}
use fast_firebird.Decimal.{
  DecimalFormat, dec64, dec128, width, bias, exp_cont_bits, declets, minus, strip_zeros, format,
  declet_digits, finite_text, decode_value, decode_dec_float,
}
use fast_firebird.Decimal.Writing.{are_digits, lead_bits, pack_digits}
use fast_firebird.Decimal.Packing.{pack_quotient, pack_split, declet_digits-pack_digits}

-- The two forms of the combination field.
finite_step :
    (fmt : DecimalFormat) (v : ℕ) (neg : Bool) (combo exp_cont coeff : ℕ)
    → (v / 2 ^ (width fmt * 8 - 1) % 2 == 1) ≡ neg
    → v / 2 ^ (width fmt * 8 - 6) % 32 ≡ combo
    → v / 2 ^ (width fmt * 8 - 6 - exp_cont_bits fmt) % 2 ^ exp_cont_bits fmt ≡ exp_cont
    → v % 2 ^ (declets fmt * 10) ≡ coeff
    → leb 30 combo ≡ false
    → decode_value fmt v ≡ (
        if combo / 8 == 3
        then finite_text fmt neg (combo / 2 % 4) (8 + combo % 2) exp_cont coeff
        else finite_text fmt neg (combo / 8 % 4) (combo % 8) exp_cont coeff)
unfolding decode_value
finite_step fmt v neg combo exp_cont coeff a b c d e = rw (a, b, c, d, e) refl

-- What the leading bits hold for an exponent whose upper bits are below 3.
abbrev combo_of : ℕ → ℕ → ℕ
combo_of e msd = if leb msd 7 then e * 8 + msd else 24 + e * 2 + (msd - 8)

lead_bits_lem :
    (neg : Bool) (e msd : ℕ)
    → e < 3
    → msd < 10
    → (lead_bits neg (pos e) msd ≡ (if neg then 1 else 0) * 32 + combo_of e msd)
      × (combo_of e msd < 30)
unfolding lead_bits
lead_bits_lem true e msd h k = (ground arith, ground arith)
lead_bits_lem false e msd h k = (ground arith, ground arith)

combo_read :
    (fmt : DecimalFormat) (neg : Bool) (e msd exp_cont coeff : ℕ)
    → e < 3
    → msd < 10
    → let combo = combo_of e msd in
      (if combo / 8 == 3
        then finite_text fmt neg (combo / 2 % 4) (8 + combo % 2) exp_cont coeff
        else finite_text fmt neg (combo / 8 % 4) (combo % 8) exp_cont coeff)
      ≡ finite_text fmt neg e msd exp_cont coeff
combo_read fmt neg e msd exp_cont coeff h k = elim (Bool-cases (leb msd 7)) [
  | inl p ↦
      let x : (e * 8 + msd) / 8 ≡ e = ground (arith) in
      let y : (e * 8 + msd) % 8 ≡ msd = ground (arith) in
      let z : (e == 3) ≡ false = ground arith in
      let w : e % 4 ≡ e = omega arith in rw (p, x, y, z, w) refl
  | inr p ↦
      let x : (24 + e * 2 + (msd - 8)) / 8 ≡ 3 = ground arith in
      let y : (24 + e * 2 + (msd - 8)) / 2 % 4 ≡ e = ground arith in
      let z : 8 + (24 + e * 2 + (msd - 8)) % 2 ≡ msd = ground arith in rw (p, x, y, z) refl
]

abbrev sign_bit : Bool → ℕ
sign_bit neg = if neg then 1 else 0

-- The fields of a number that is laid out so.
fields :
    (fmt : DecimalFormat) (neg : Bool) (combo exp_cont low v : ℕ)
    → combo < 32
    → exp_cont < 2 ^ exp_cont_bits fmt
    → low < 1024 ^ declets fmt
    → v
      ≡ ((sign_bit neg * 32 + combo) * 2 ^ exp_cont_bits fmt + exp_cont) * 1024 ^ declets fmt + low
    → ((v / 2 ^ (width fmt * 8 - 1) % 2 == 1) ≡ neg)
      × (v / 2 ^ (width fmt * 8 - 6) % 32 ≡ combo)
      × (v / 2 ^ (width fmt * 8 - 6 - exp_cont_bits fmt) % 2 ^ exp_cont_bits fmt ≡ exp_cont)
      × (v % 2 ^ (declets fmt * 10) ≡ low)
      × (v < 256 ^ width fmt)
fields dec64 true combo exp_cont low v h k l e = (
  ground arith,
  omega (arith, h, k, l, e),
  omega (arith, h, k, l, e),
  omega (arith, h, k, l, e),
  omega (arith, h, k, l, e),
)
fields dec64 false combo exp_cont low v h k l e = (
  ground arith,
  omega (arith, h, k, l, e),
  omega (arith, h, k, l, e),
  omega (arith, h, k, l, e),
  omega (arith, h, k, l, e),
)
fields dec128 true combo exp_cont low v h k l e = (
  ground arith,
  omega (arith, h, k, l, e),
  omega (arith, h, k, l, e),
  omega (arith, h, k, l, e),
  omega (arith, h, k, l, e),
)
fields dec128 false combo exp_cont low v h k l e = (
  ground arith,
  omega (arith, h, k, l, e),
  omega (arith, h, k, l, e),
  omega (arith, h, k, l, e),
  omega (arith, h, k, l, e),
)

le_false : {n : ℕ} → n < 30 → leb 30 n ≡ false
le_false h = ground arith

decode_bytes :
    (fmt : DecimalFormat) (v : ℕ)
    → v < 256 ^ width fmt
    → decode_dec_float (be_bytes (width fmt) v) ≡ decode_value fmt v
unfolding decode_dec_float
decode_bytes dec64 v h = ap (λ z. decode_value dec64 z) (be_value-be_bytes 8 v h)
decode_bytes dec128 v h = ap (λ z. decode_value dec128 z) (be_value-be_bytes 16 v h)

low_bound :
    (fmt : DecimalFormat) (low : ℕ) → low / 1024 ^ declets fmt ≡ 0 → low < 1024 ^ declets fmt
low_bound dec64 low h = omega (arith, h)
low_bound dec128 low h = omega (arith, h)

finite_digits :
    (fmt : DecimalFormat) (neg : Bool) (e msd exp_cont low : ℕ) (rest : List ℕ)
    → declet_digits (declets fmt) low ≡ rest
    → finite_text fmt neg e msd exp_cont low
      ≡ format neg
          (strip_zeros ((msd + 48) ∷ rest))
          (minus (e * 2 ^ exp_cont_bits fmt + exp_cont) (bias fmt))
unfolding finite_text
finite_digits fmt neg e msd exp_cont low rest h = rw h refl

-- The bytes of a sign, an exponent, a first digit and the digits behind it are read as these.
pub decode-packed :
    (fmt : DecimalFormat) (neg : Bool) (e msd exp_cont : ℕ) (rest : List ℕ)
    → e < 3
    → msd < 10
    → exp_cont < 2 ^ exp_cont_bits fmt
    → length rest ≡ 3 * declets fmt
    → are_digits rest ≡ true
    → decode_dec_float (
        be_bytes (width fmt) (
          pack_digits
            (declets fmt)
            rest
            (lead_bits neg (pos e) msd * 2 ^ exp_cont_bits fmt + exp_cont)))
      ≡ format neg
          (strip_zeros ((msd + 48) ∷ rest))
          (minus (e * 2 ^ exp_cont_bits fmt + exp_cont) (bias fmt))
decode-packed fmt neg e msd exp_cont rest h k l m d =
    let lead = lead_bits_lem neg e msd h k in
    let combo = combo_of e msd in
    let v0 = lead_bits neg (pos e) msd * 2 ^ exp_cont_bits fmt + exp_cont in
    let low = pack_digits (declets fmt) rest 0 in
    let bound = low_bound fmt low (pack_quotient (declets fmt) rest 0 m d) in
    let v = pack_digits (declets fmt) rest v0 in
    let split =
      pack_split (declets fmt) rest v0
      ∙ ap (λ z. (z * 2 ^ exp_cont_bits fmt + exp_cont) * 1024 ^ declets fmt + low) lead.0 in
    let f = fields fmt neg combo exp_cont low v (omega (arith, lead.1)) l bound split in
    let high : leb 30 combo ≡ false = le_false lead.1 in
    decode_bytes fmt v f.4
    ∙ finite_step fmt v neg combo exp_cont low f.0 f.1 f.2 f.3 high
    ∙ combo_read fmt neg e msd exp_cont low h k
    ∙ finite_digits fmt neg e msd exp_cont low rest
        (declet_digits-pack_digits (declets fmt) rest 0 m d)

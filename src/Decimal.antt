-- ===== src/Decimal.antt =====
-- packages/core/src/types/decfloat.ts: DECFLOAT(16) and DECFLOAT(34) as IEEE 754-2008 decimals.
-- Texts are lists of character codes, and the BigInt arithmetic is that of ℕ.
pub mod Declets
pub mod Packing
pub mod Writing
pub mod Fields
pub mod RoundTrip
mod Tests
use fast_firebird.Base.Keys.{same_list}
use fast_firebird.Base.{
  ℕ, zero, suc, ◌+◌, ◌-◌, ◌*◌, ◌/◌, ◌%◌, ◌^◌, Bool, true, false, ◌&&◌, Option, none, some, List, [],
  ◌∷◌, ◌++◌, ◌==◌, ltb, leb, if◌then◌else◌, length, take, drop, replicate, ℤ, pos, negsuc, be_value,
  codes,
}

-- encodeDeclet: the bits of three digits in the form that their high bits choose.
abbrev bit : ℕ → ℕ → ℕ
bit d k = d / 2 ^ k % 2

abbrev pub join : List ℕ → ℕ → ℕ
join [] acc = acc
join (b ∷ bits) acc = join bits (acc * 2 + b)

unfoldable pub encode_declet : ℕ → ℕ → ℕ → ℕ
encode_declet d2 d1 d0 =
    let b = bit d2 2 in
    let c = bit d2 1 in
    let d = bit d2 0 in
    let f = bit d1 2 in
    let g = bit d1 1 in
    let h = bit d1 0 in
    let j = bit d0 2 in
    let k = bit d0 1 in
    let m = bit d0 0 in
    let aei = bit d2 3 * 4 + bit d1 3 * 2 + bit d0 3 in
    if aei == 0
    then join (b ∷ c ∷ d ∷ f ∷ g ∷ h ∷ 0 ∷ j ∷ k ∷ m ∷ []) 0
    else if aei == 1
    then join (b ∷ c ∷ d ∷ f ∷ g ∷ h ∷ 1 ∷ 0 ∷ 0 ∷ m ∷ []) 0
    else if aei == 2
    then join (b ∷ c ∷ d ∷ j ∷ k ∷ h ∷ 1 ∷ 0 ∷ 1 ∷ m ∷ []) 0
    else if aei == 3
    then join (b ∷ c ∷ d ∷ 1 ∷ 0 ∷ h ∷ 1 ∷ 1 ∷ 1 ∷ m ∷ []) 0
    else if aei == 4
    then join (j ∷ k ∷ d ∷ f ∷ g ∷ h ∷ 1 ∷ 1 ∷ 0 ∷ m ∷ []) 0
    else if aei == 5
    then join (f ∷ g ∷ d ∷ 0 ∷ 1 ∷ h ∷ 1 ∷ 1 ∷ 1 ∷ m ∷ []) 0
    else if aei == 6
    then join (j ∷ k ∷ d ∷ 0 ∷ 0 ∷ h ∷ 1 ∷ 1 ∷ 1 ∷ m ∷ []) 0
    else join (0 ∷ 0 ∷ d ∷ 1 ∷ 1 ∷ h ∷ 1 ∷ 1 ∷ 1 ∷ m ∷ []) 0

-- The three digits of a number below 1000.
abbrev pub declet_of : ℕ → ℕ
declet_of n = encode_declet (n / 100) (n / 10 % 10) (n % 10)

-- An entry of DPD_TO_INT: the last of the numbers below n that is encoded so, and 0 if none is.
unfoldable pub last_encoded : ℕ → ℕ → ℕ
last_encoded zero p = 0
last_encoded (suc n) p = elim (declet_of n == p) [ true ↦ n | false ↦ last_encoded n p ]

unfoldable pub dpd_to_int : ℕ → ℕ
unfolding last_encoded
dpd_to_int p = last_encoded 1000 p

-- DEC64 and DEC128.
pub data DecimalFormat : Type 0 where
  dec64 dec128 : DecimalFormat

abbrev pub width : DecimalFormat → ℕ
width dec64 = 8
width dec128 = 16

abbrev pub bias : DecimalFormat → ℕ
bias dec64 = 398
bias dec128 = 6176

abbrev pub exp_cont_bits : DecimalFormat → ℕ
exp_cont_bits dec64 = 8
exp_cont_bits dec128 = 12

abbrev pub declets : DecimalFormat → ℕ
declets dec64 = 5
declets dec128 = 11

-- `s.replace(/^0+(?=\d)/, '')` for a text of digits.
unfoldable pub strip_zeros : List ℕ → List ℕ
strip_zeros [] = []
strip_zeros (c ∷ []) = c ∷ []
strip_zeros (c ∷ d ∷ s) = if c == 48 then strip_zeros (d ∷ s) else c ∷ d ∷ s

-- `a - b` for natural numbers.
abbrev pub minus : ℕ → ℕ → ℤ
minus a b = if leb b a then pos (a - b) else negsuc (b - a - 1)

unfoldable pub format : Bool → List ℕ → ℤ → List ℕ
format neg digits exp =
    let s = if neg then b'-' ∷ [] else [] in
    if same_list digits (48 ∷ []) then s ++ 48 ∷ [] else elim exp [
      | pos n ↦ s ++ (digits ++ replicate n 48)
      | negsuc n ↦
          if ltb (n + 1) (length digits)
          then s
            ++ (take (length digits - (n + 1)) digits ++ 46 ∷ drop (length digits - (n + 1)) digits)
          else s ++ (48 ∷ 46 ∷ (replicate (n + 1 - length digits) 48 ++ digits))
    ]

-- `String(n).padStart(3, '0')` for n below 1000.
abbrev pub three : ℕ → List ℕ
three n = (n / 100 + 48) ∷ (n / 10 % 10 + 48) ∷ (n % 10 + 48) ∷ []

-- The loop over the declets of the coefficient, from the n-th down.
unfoldable pub declet_digits : ℕ → ℕ → List ℕ
unfolding dpd_to_int
declet_digits zero v = []
declet_digits (suc n) v = three (dpd_to_int (v / 1024 ^ n % 1024)) ++ declet_digits n v

unfoldable pub finite_text : DecimalFormat → Bool → ℕ → ℕ → ℕ → ℕ → List ℕ
unfolding declet_digits
finite_text fmt neg exp_msb msd exp_cont coeff =
    let digits = strip_zeros ((msd + 48) ∷ declet_digits (declets fmt) coeff) in
    format neg digits (minus (exp_msb * 2 ^ exp_cont_bits fmt + exp_cont) (bias fmt))

unfoldable pub decode_value : DecimalFormat → ℕ → List ℕ
unfolding finite_text
decode_value fmt v =
    let total_bits = width fmt * 8 in
    let neg = v / 2 ^ (total_bits - 1) % 2 == 1 in
    let combo = v / 2 ^ (total_bits - 6) % 32 in
    let exp_cont = v / 2 ^ (total_bits - 6 - exp_cont_bits fmt) % 2 ^ exp_cont_bits fmt in
    let coeff = v % 2 ^ (declets fmt * 10) in
    if leb 30 combo
    then if combo == 30 then if neg then codes "-Infinity" else codes "Infinity" else codes "NaN"
    else if combo / 8 == 3
    then finite_text fmt neg (combo / 2 % 4) (8 + combo % 2) exp_cont coeff
    else finite_text fmt neg (combo / 8 % 4) (combo % 8) exp_cont coeff

unfoldable pub decode_dec_float : List ℕ → List ℕ
unfolding decode_value
decode_dec_float buf = decode_value (if length buf == 8 then dec64 else dec128) (be_value 0 buf)

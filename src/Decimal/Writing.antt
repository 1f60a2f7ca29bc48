-- ===== src/Decimal/Writing.antt =====
-- packages/core/src/types/decfloat.ts: parseDecimal and encodeDecFloat. `none` throws.
-- `parseInt` returns NaN where no digit stands: the exponent is `none` then. A shift of a JavaScript
-- number takes its low 32 bits.
use fast_firebird.Base.{
  ℕ, zero, suc, ◌+◌, ◌-◌, ◌*◌, ◌/◌, ◌%◌, ◌^◌, Bool, true, false, ◌&&◌, ◌||◌, Option, none, some,
  List, [], ◌∷◌, ◌++◌, ◌==◌, ltb, leb, if◌then◌else◌, length, take, drop, replicate, get_or, ℤ, pos,
  negsuc, wrap, signed, be_bytes, codes, ◌>>=◌, map,
}
use fast_firebird.Base.Keys.{same_list}
use fast_firebird.Script.Words.{is_space, is_digit, is_upper, run_of, after_run, trim}
use fast_firebird.Script.Commands.{number_from}
use fast_firebird.Decimal.{
  DecimalFormat, width, bias, exp_cont_bits, declets, encode_declet, strip_zeros, minus,
}

abbrev pub plus : ℤ → ℤ → ℤ
plus (pos a) (pos b) = pos (a + b)
plus (pos a) (negsuc b) = minus a (b + 1)
plus (negsuc a) (pos b) = minus b (a + 1)
plus (negsuc a) (negsuc b) = negsuc (a + b + 1)

abbrev pub negative : ℕ → ℤ
negative zero = pos 0
negative (suc n) = negsuc n

abbrev pub starts_minus : List ℕ → Bool
starts_minus [] = false
starts_minus (c ∷ s) = c == 45

-- A leading `+` or `-` dropped.
abbrev pub without_sign : List ℕ → List ℕ
without_sign [] = []
without_sign (c ∷ s) = if c == 43 || c == 45 then s else c ∷ s

-- `parseInt(s, 10)`
unfoldable pub parse_int : List ℕ → Option ℤ
parse_int s =
    let t = after_run is_space s in
    let digits = run_of is_digit (without_sign t) in
    let n = number_from 0 digits in
    if length digits == 0 then none else some (if starts_minus t then negative n else pos n)

abbrev pub is_e : ℕ → Bool
is_e c = c == 101 || c == 69

-- What stands before and behind the first character that passes a test.
unfoldable pub split_at : (ℕ → Bool) → List ℕ → List ℕ × Option (List ℕ)
split_at p [] = ([], none)
split_at p (c ∷ s) =
    if p c then ([], some s) else (let (before, behind) = split_at p s in (c ∷ before, behind))

-- `/^\d+$/`
unfoldable pub are_digits : List ℕ → Bool
are_digits [] = true
are_digits (c ∷ s) = is_digit c && are_digits s

pub record Decimal : Type 0 where
  pub neg : Bool
  pub digits : List ℕ
  pub exp : Option ℤ

-- The digits before and behind the dot, and how many are behind it.
abbrev pub joined : List ℕ × Option (List ℕ) → List ℕ
joined (whole, none) = whole
joined (whole, some fraction) = whole ++ fraction

abbrev pub places : Option (List ℕ) → ℕ
places none = 0
places (some fraction) = length fraction

unfoldable pub checked : Bool → List ℕ → Option ℤ → Option Decimal
unfolding are_digits
checked neg digits exp =
    if length digits == 0
    then none
    else if are_digits digits
    then some (record { neg = neg; digits = strip_zeros digits; exp = exp })
    else none

-- The mantissa with its dot, and the exponent that is written behind it.
unfoldable pub mantissa : Bool → List ℕ → Option ℤ → Option Decimal
unfolding split_at checked
mantissa neg s exp =
    let parts = split_at (λ c. c == 46) s in
    checked neg (joined parts) (exp >>= λ e. some (plus e (negative (places parts.1))))

unfoldable pub exponent : Option (List ℕ) → Option ℤ
unfolding parse_int
exponent none = some (pos 0)
exponent (some e) = parse_int e

unfoldable pub parse_decimal : List ℕ → Option Decimal
unfolding mantissa exponent split_at
parse_decimal input =
    let s = trim input in
    let parts = split_at is_e (without_sign s) in
    mantissa (starts_minus s) parts.0 (exponent parts.1)

-- `BigInt(digits)` and its `toString`.
unfoldable pub decimal_text : ℕ → ℕ → List ℕ
decimal_text zero n = (n % 10 + 48) ∷ []
decimal_text (suc fuel) n =
    let front = decimal_text fuel (n / 10) in
    if ltb n 10 then (n + 48) ∷ [] else front ++ (n % 10 + 48) ∷ []

abbrev pub max_digits : DecimalFormat → ℕ
max_digits fmt = declets fmt * 3 + 1

abbrev add_to : ℕ → Option ℤ → Option ℤ
add_to n exp = exp >>= λ e. some (plus e (pos n))

-- Digits that are too many are rounded half up.
unfoldable pub rounded : ℕ → Decimal → Decimal
unfolding decimal_text
rounded max d =
    if ltb max (length d.digits)
    then (let up = if leb 5 (get_or d.digits max 0 - 48) then 1 else 0 in
        let digits = decimal_text (max + 1) (number_from 0 (take max d.digits) + up) in
        let exp = add_to (length d.digits - max) d.exp in
        if ltb max (length digits)
        then record { neg = d.neg; digits = take max digits; exp = add_to 1 exp }
        else record { neg = d.neg; digits = digits; exp = exp })
    else d

-- `biasedExp >> expContBits`, a NaN being 0.
unfoldable pub high_bits : DecimalFormat → Option ℕ → ℤ
high_bits fmt none = pos 0
high_bits fmt (some b) = elim (signed (2 ^ 32) (b % 2 ^ 32)) [
  | pos n ↦ pos (n / 2 ^ exp_cont_bits fmt)
  | negsuc n ↦ negsuc (n / 2 ^ exp_cont_bits fmt)
]

-- `biasedExp & ((1 << expContBits) - 1)`
abbrev pub low_bits : DecimalFormat → Option ℕ → ℕ
low_bits fmt none = 0
low_bits fmt (some b) = b % 2 ^ exp_cont_bits fmt

-- The sign and the combination field: the six bits of `v` that stay in the buffer.
unfoldable pub lead_bits : Bool → ℤ → ℕ → ℕ
lead_bits neg exp_msb msd =
    let x : ℕ = elim exp_msb [
      | pos n ↦ wrap 64 (pos (n * 2))
      | negsuc n ↦ wrap 64 (negsuc (n * 2 + 1))
    ] in
    let y : ℕ = elim exp_msb [
      | pos n ↦ wrap 64 (pos (n * 8))
      | negsuc n ↦ wrap 64 (negsuc (n * 8 + 7))
    ] in
    let c = if leb msd 7 then y + msd else x / 32 * 32 + 24 + x % 8 + (msd - 8) in
    (if neg then 1 else c / 32) * 32 + c % 32

-- The loop over the declets of the digits behind the first.
unfoldable pub pack_digits : ℕ → List ℕ → ℕ → ℕ
pack_digits zero rest v = v
pack_digits (suc n) rest v =
    pack_digits n (drop 3 rest) (
      v * 1024 + encode_declet (get_or rest 0 0 - 48) (get_or rest 1 0 - 48) (get_or rest 2 0 - 48))

-- `exp + fmt.bias`, which throws below 0.
unfoldable pub biased_exp : DecimalFormat → Option ℤ → Option (Option ℕ)
biased_exp fmt none = some none
biased_exp fmt (some e) = elim (plus e (pos (bias fmt))) [ pos b ↦ some (some b) | negsuc n ↦ none ]

unfoldable pub too_high : ℤ → Bool
too_high (pos n) = ltb 3 n
too_high (negsuc n) = false

unfoldable pub encode_biased : DecimalFormat → Bool → List ℕ → Option ℕ → Option (List ℕ)
unfolding high_bits lead_bits pack_digits too_high
encode_biased fmt neg padded b =
    let exp_msb = high_bits fmt b in
    if too_high exp_msb
    then none
    else some (
        be_bytes (width fmt) (
          pack_digits (declets fmt) (drop 1 padded) (
            lead_bits neg exp_msb (get_or padded 0 0 - 48) * 2 ^ exp_cont_bits fmt
            + low_bits fmt b)))

-- The bytes of a number that is not too long.
unfoldable pub encode_fitting : DecimalFormat → Bool → List ℕ → Option ℤ → Option (List ℕ)
unfolding biased_exp encode_biased
encode_fitting fmt neg digits exp =
    biased_exp fmt exp
    >>= encode_biased fmt neg (replicate (max_digits fmt - length digits) 48 ++ digits)

abbrev lower : ℕ → ℕ
lower c = if is_upper c then c + 32 else c

-- specialDecFloat
unfoldable pub special_dec_float : Bool → ℕ → DecimalFormat → List ℕ
special_dec_float neg combo fmt =
    ((if neg then 1 else 0) * 128 + combo * 4) ∷ replicate (width fmt - 1) 0

-- The two tests for a special value on the trimmed text in lower case.
unfoldable pub special : List ℕ → DecimalFormat → Option (List ℕ)
unfolding special_dec_float
special value fmt =
    let s = map lower (trim value) in
    let t = without_sign s in
    if same_list t (codes "inf") || same_list t (codes "infinity")
    then some (special_dec_float (starts_minus s) 30 fmt)
    else if same_list t (codes "nan")
    then some (special_dec_float false 31 fmt)
    else none

unfoldable pub encode_dec_float : List ℕ → DecimalFormat → Option (List ℕ)
unfolding special parse_decimal rounded encode_fitting
encode_dec_float value fmt = elim (special value fmt) [
  | some buf ↦ some buf
  | none ↦ parse_decimal value >>= λ d.
      let r = rounded (max_digits fmt) d in encode_fitting fmt r.neg r.digits r.exp
]

-- ===== src/Decimal/Tests.antt =====
-- Concrete decimals, written and read.
use fast_firebird.Base.{ℕ, ◌≡◌, refl, none, some, codes, Option, List, negsuc, arith, true, ◌>>=◌}
use fast_firebird.Script.Words.{is_space, run_of, after_run, trim, trim_end}
use fast_firebird.Script.Commands.{number_from}
use fast_firebird.Decimal.{
  dec64, encode_declet, last_encoded, dpd_to_int, strip_zeros, format, declet_digits, finite_text,
  decode_value, decode_dec_float,
}
use fast_firebird.Decimal.RoundTrip.{decode_dec_float-encode_dec_float}
use fast_firebird.Decimal.Writing.{
  Decimal, checked, exponent, biased_exp, too_high, encode_biased, parse_int, split_at, are_digits,
  mantissa, parse_decimal, decimal_text, rounded, high_bits, lead_bits, pack_digits, encode_fitting,
  special_dec_float, special, encode_dec_float,
}

abbrev there_and_back : List ℕ → Option (List ℕ)
there_and_back s = encode_dec_float s dec64 >>= λ b. some (decode_dec_float b)

plain_lem : there_and_back (codes "-12.50") ≡ some (codes "-12.50")
unfolding encode_dec_float special special_dec_float parse_decimal mantissa checked exponent
    split_at are_digits parse_int rounded decimal_text number_from encode_fitting biased_exp
    too_high encode_biased high_bits lead_bits pack_digits encode_declet decode_dec_float
    decode_value finite_text declet_digits dpd_to_int last_encoded strip_zeros format is_space
    run_of after_run trim trim_end
plain_lem = refl

-- An exponent above the greatest one is taken for a leading digit of 8 or 9.
too_great_lem : there_and_back (codes "1e370") ≡ there_and_back (codes "8000000000000001e-398")
unfolding encode_dec_float special special_dec_float parse_decimal mantissa checked exponent
    split_at are_digits parse_int rounded decimal_text number_from encode_fitting biased_exp
    too_high encode_biased high_bits lead_bits pack_digits encode_declet decode_dec_float
    decode_value finite_text declet_digits dpd_to_int last_encoded strip_zeros format is_space
    run_of after_run trim trim_end
too_great_lem = refl

-- A missing exponent is taken for the least one.
no_exponent_lem : encode_dec_float (codes "1e") dec64 ≡ encode_dec_float (codes "1e-398") dec64
unfolding encode_dec_float special special_dec_float parse_decimal mantissa checked exponent
    split_at are_digits parse_int rounded decimal_text number_from encode_fitting biased_exp
    too_high encode_biased high_bits lead_bits pack_digits encode_declet is_space run_of after_run
    trim trim_end strip_zeros
no_exponent_lem = refl

abbrev price : Decimal
price = record { neg = true; digits = codes "1250"; exp = some (negsuc 1) }

price_parsed : parse_decimal (codes "-12.50") ≡ some price
unfolding parse_decimal mantissa checked exponent split_at are_digits parse_int number_from
    strip_zeros is_space run_of after_run trim trim_end
price_parsed = refl

not_special : special (codes "-12.50") dec64 ≡ none
unfolding special special_dec_float trim trim_end after_run is_space
not_special = refl

decode_dec_float-encode_dec_float_example :
    (buf : List ℕ) × (encode_dec_float (codes "-12.50") dec64 ≡ some buf)
    × (decode_dec_float buf ≡ format true (codes "1250") (negsuc 1))
decode_dec_float-encode_dec_float_example =
    decode_dec_float-encode_dec_float dec64 (codes "-12.50") price (negsuc 1) 396 not_special
      price_parsed refl (omega arith) refl (omega arith)

-- The exponent is cut to 32 bits before it is tested.
cut_exponent_lem :
    encode_dec_float (codes "1e4294967296") dec64 ≡ encode_dec_float (codes "1e0") dec64
unfolding encode_dec_float special special_dec_float parse_decimal mantissa checked exponent
    split_at are_digits parse_int rounded decimal_text number_from encode_fitting biased_exp
    too_high encode_biased high_bits lead_bits pack_digits encode_declet is_space run_of after_run
    trim trim_end strip_zeros
cut_exponent_lem = refl

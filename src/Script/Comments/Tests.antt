-- ===== src/Script/Comments/Tests.antt =====
-- Concrete scripts, and the theorems of the scanner and of the comment helpers at them.
use fast_firebird.Base.{ℕ, ◌≡◌, refl, some, List, [], ◌∷◌, length, codes, true}
use fast_firebird.Script.Scanner.{
  Region, block_comment, region_at, region_from, find_pair, find_quote, line_end, closed, q_region,
}
use fast_firebird.Script.Comments.{ok, comment_ranges, ranges_from, strip_comments, blanked}
use fast_firebird.Script.Comments.Ranges.{Outcome, comment_ranges-Outcome}
use fast_firebird.Script.Comments.Blanking.{masked, strip_comments-masked}

abbrev sample : List ℕ
sample = codes "a '--' /* b */ c -- d"

abbrev sample_stripped : List ℕ
sample_stripped = codes "a '--'         c     "

sample_ranges : comment_ranges sample ≡ ok ((7, 14) ∷ (17, 21) ∷ [])
unfolding comment_ranges ranges_from region_at region_from find_pair find_quote line_end closed
    q_region
sample_ranges = refl

sample_strips : strip_comments sample ≡ ok sample_stripped
unfolding strip_comments comment_ranges ranges_from region_at region_from find_pair find_quote
    line_end closed q_region blanked
sample_strips = refl

abbrev comment_region : Region
comment_region = record { kind = block_comment; start = 7; stop = 14; terminated = true }

comment_region_lem : region_at sample 7 ≡ some comment_region
unfolding region_at region_from find_pair closed
comment_region_lem = refl

comment_ranges-Outcome_example : Outcome (length sample) 0 (comment_ranges sample)
comment_ranges-Outcome_example = comment_ranges-Outcome sample

strip_comments-masked_example :
    (ranges : List (ℕ × ℕ)) × (comment_ranges sample ≡ ok ranges)
    × (sample_stripped ≡ masked 0 ranges sample)
strip_comments-masked_example = strip_comments-masked sample sample_stripped sample_strips

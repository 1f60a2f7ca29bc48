-- ===== src/Blob/Segments/Tests.antt =====
-- Framed segments on an example.
use fast_firebird.Base.{ℕ, ◌≡◌, refl, List, [], ◌∷◌, concat, arith}
use fast_firebird.Blob.Segments.{
  parse_segment_frames, frames_from, framed, parse_segment_frames-framed,
}

abbrev segments : List (List ℕ)
segments = (7 ∷ 8 ∷ 9 ∷ []) ∷ [] ∷ (1 ∷ []) ∷ []

parse_segment_frames-framed_example : parse_segment_frames (framed segments) ≡ concat segments
parse_segment_frames-framed_example = parse_segment_frames-framed segments (omega arith)

-- A segment that is cut short is what is there.
parse_cut_segment : parse_segment_frames (4 ∷ 0 ∷ 1 ∷ 2 ∷ []) ≡ 1 ∷ 2 ∷ []
unfolding parse_segment_frames frames_from
parse_cut_segment = refl

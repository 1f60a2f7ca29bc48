-- ===== src/Blob/Segments.antt =====
-- packages/core/src/protocol/blob.ts: `parseSegmentFrames`, segments behind their two-byte lengths.
mod Tests
use fast_firebird.Base.{
  ℕ, zero, suc, ◌+◌, ◌-◌, ◌*◌, ◌^◌, ◌≤◌, ◌<◌, ◌≡◌, refl, sym, ap, ap₂, ◌∙◌, List, [], ◌∷◌, ◌++◌,
  length, take, drop, concat, le_bytes, le_value, le_value-le_bytes, length-le_bytes,
  take-append_length, drop-append_length, All, length-append, length-drop, length-take, min, ◌%◌,
  ◌/◌, arith,
}

-- The loop on fuel. Each round takes two bytes at least, so as many rounds as bytes are enough; a
-- segment that the buffer cuts short is what is there of it, as `subarray` has it.
unfoldable pub frames_from : ℕ → List ℕ → List (List ℕ)
frames_from (suc fuel) (low ∷ high ∷ raw) =
    let len = low + 256 * high in take len raw ∷ frames_from fuel (drop len raw)
frames_from _ _ = []

unfoldable pub parse_segment_frames : List ℕ → List ℕ
parse_segment_frames raw = concat (frames_from (length raw) raw)

-- Segments framed as the server does it.
abbrev pub framed : List (List ℕ) → List ℕ
framed [] = []
framed (s ∷ segments) = le_bytes 2 (length s) ++ s ++ framed segments

frames_from-framed :
    (fuel : ℕ) (segments : List (List ℕ))
    → All (λ s. length s < 2 ^ 16) segments
    → length (framed segments) ≤ fuel
    → frames_from fuel (framed segments) ≡ segments
unfolding frames_from
frames_from-framed zero [] h k = refl
frames_from-framed (suc fuel) [] h k = refl
frames_from-framed zero (s ∷ segments) h k = absurd (omega arith)
frames_from-framed (suc fuel) (s ∷ segments) h k =
    let len : length s % 256 + 256 * (length s / 256 % 256) ≡ length s = omega (arith, h.0) in
    rw len (
      ap₂ (λ (x : List ℕ) (y : List (List ℕ)). x ∷ y) (take-append_length s (framed segments))
        (ap (frames_from fuel) (drop-append_length s (framed segments))
          ∙ frames_from-framed fuel segments h.1
              (omega (arith, length-append s (framed segments)))))

-- The segments of a blob, each shorter than 64 KB, are put together again in order.
pub parse_segment_frames-framed :
    (segments : List (List ℕ))
    → All (λ s. length s < 2 ^ 16) segments
    → parse_segment_frames (framed segments) ≡ concat segments
unfolding parse_segment_frames
parse_segment_frames-framed segments h =
    ap concat (frames_from-framed (length (framed segments)) segments h (omega arith))

-- The parts of any buffer are no more than its bytes.
pub length-parse_segment_frames-le : (raw : List ℕ) → length (parse_segment_frames raw) ≤ length raw
unfolding parse_segment_frames frames_from
length-parse_segment_frames-le raw = bounded (length raw) raw
  where
    bounded : (fuel : ℕ) (raw : List ℕ) → length (concat (frames_from fuel raw)) ≤ length raw
    bounded zero raw = omega arith
    bounded (suc fuel) [] = omega arith
    bounded (suc fuel) (low ∷ []) = omega arith
    bounded (suc fuel) (low ∷ high ∷ raw) =
        let len = low + 256 * high in
        omega (
          arith,
          bounded fuel (drop len raw),
          length-append (take len raw) (concat (frames_from fuel (drop len raw))),
          length-drop len raw,
          length-take len raw,
        )

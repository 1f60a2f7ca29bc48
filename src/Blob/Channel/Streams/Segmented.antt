-- ===== src/Blob/Channel/Streams/Segmented.antt =====
-- The segments that writeBlobStream cuts the bytes of its source in, however the source is cut.
use fast_firebird.Base.{
  ℕ, zero, suc, ◌<◌, ◌≤◌, ◌≡◌, refl, ap, ap₂, ◌∙◌, false, List, [], ◌∷◌, ◌++◌, ◌==◌, if◌then◌else◌,
  length, take, drop, concat, length-drop, append-nil, take-append-le, drop-append-le, take_all,
  drop_all, arith,
}
use fast_firebird.Blob.Channel.Writes.{chunks_from}

-- The bytes cut in segments of a size, the last of what is left.
abbrev pub segments_of : ℕ → List ℕ → List (List ℕ)
segments_of size bytes = chunks_from (length bytes) size bytes

-- More fuel than the length cuts no more.
chunks_from_enough :
    (fuel more size : ℕ) (bytes : List ℕ)
    → 0 < size
    → length bytes ≤ fuel
    → length bytes ≤ more
    → chunks_from fuel size bytes ≡ chunks_from more size bytes
unfolding chunks_from
chunks_from_enough zero zero size [] p h k = refl
chunks_from_enough zero (suc more) size [] p h k = refl
chunks_from_enough (suc fuel) zero size [] p h k = refl
chunks_from_enough (suc fuel) (suc more) size [] p h k = refl
chunks_from_enough zero more size (b ∷ bytes) p h k = absurd (omega (arith, h))
chunks_from_enough (suc fuel) zero size (b ∷ bytes) p h k = absurd (omega (arith, k))
chunks_from_enough (suc fuel) (suc more) size (b ∷ bytes) p h k =
    let l = length-drop size (b ∷ bytes) in
    ap (λ t. take size (b ∷ bytes) ∷ t)
      (chunks_from_enough fuel more size (drop size (b ∷ bytes)) p (omega (arith, h, p, l))
        (omega (arith, k, p, l)))

segments_of_cons :
    (size b : ℕ) (bytes : List ℕ)
    → 0 < size
    → segments_of size (b ∷ bytes)
      ≡ take size (b ∷ bytes) ∷ segments_of size (drop size (b ∷ bytes))
unfolding chunks_from
segments_of_cons size b bytes p =
    let l = length-drop size (b ∷ bytes) in
    ap (λ t. take size (b ∷ bytes) ∷ t)
      (chunks_from_enough (length bytes) (length (drop size (b ∷ bytes))) size
        (drop size (b ∷ bytes)) p (omega (arith, p, l)) (omega arith))

-- A full segment is cut off what is pending, whatever comes behind it.
pub segments_of_full :
    (size : ℕ) (all later : List ℕ)
    → 0 < size
    → size ≤ length all
    → segments_of size (all ++ later) ≡ take size all ∷ segments_of size (drop size all ++ later)
segments_of_full size [] later p h = absurd (omega (arith, p, h))
segments_of_full size (b ∷ all) later p h =
    segments_of_cons size b (all ++ later) p
    ∙ ap₂ (λ (x y : List ℕ). x ∷ segments_of size y) (take-append-le size (b ∷ all) later h)
        (drop-append-le size (b ∷ all) later h)

-- What is left is the last segment.
pub segments_of_last :
    (size : ℕ) (bytes : List ℕ)
    → 0 < length bytes
    → length bytes < size
    → segments_of size bytes ≡ bytes ∷ []
unfolding chunks_from
segments_of_last size [] p h = absurd (omega (arith, p))
segments_of_last size (b ∷ bytes) p h =
    segments_of_cons size b bytes (omega (arith, h))
    ∙ ap₂ (λ (x y : List ℕ). x ∷ segments_of size y) (take_all size (b ∷ bytes) (omega (arith, h)))
        (drop_all size (b ∷ bytes) (omega (arith, h)))

pub concat_rest : (rest : List ℕ) → concat (if length rest == 0 then [] else rest ∷ []) ≡ rest
concat_rest [] = refl
concat_rest (b ∷ rest) =
    let t : (suc (length rest) == 0) ≡ false = ground arith in rw t (append-nil (b ∷ rest))

pub no_bytes : (bytes : List ℕ) → length bytes ≡ 0 → bytes ≡ []
no_bytes [] h = refl
no_bytes (b ∷ bytes) h = absurd (omega (arith, h))

pub segments_of_none : (size : ℕ) (bytes : List ℕ) → length bytes ≡ 0 → segments_of size bytes ≡ []
unfolding chunks_from
segments_of_none size [] h = refl
segments_of_none size (b ∷ bytes) h = absurd (omega (arith, h))

-- ===== src/Blob/Channel/Reading.antt =====
-- What readBlob returns of the answers that a server gives.
use mathlib.Core.Path.{subst₂}
use fast_firebird.Base.{
  ℕ, suc, ◌≡◌, refl, ap, sym, ◌∙◌, true, false, List, [], ◌∷◌, ◌++◌, ◌==◌, length, concat,
  concat-append, append_assoc, append-nil, subst, All, arith, ℤ,
}
use fast_firebird.Wire.Responses.{is_code}
use fast_firebird.Blob.Segments.{parse_segment_frames}
use fast_firebird.Blob.Channel.{
  get_segment, Reply, response, Channel, Outcome, done, request, flush, close_deferred, open_blob_,
  read_response, skip_deferred, take_response, open_blob, buffer_length,
}
use fast_firebird.Blob.Channel.Reads.{pipeline_depth, with_part, read_rounds, read_blob}

abbrev pub Response : Type 0
Response = ℤ × List ℕ × List ℕ

-- The segments that answers carry.
abbrev pub contents : List Response → List ℕ
contents [] = []
contents (a ∷ answers) = parse_segment_frames a.2 ++ contents answers

concat-with_part :
    (bytes : List ℕ) (parts : List (List ℕ))
    → concat (with_part bytes parts) ≡ concat parts ++ bytes
concat-with_part [] parts = sym (append-nil (concat parts))
concat-with_part (b ∷ bytes) parts =
    let t : (suc (length bytes) == 0) ≡ false = ground arith in
    rw t (concat-append parts (b ∷ bytes))

module _ {E : Type 0} where
  -- Answers ahead of other replies.
  abbrev pub answered : List Response → List (Reply E) → List (Reply E)
  answered [] rest = rest
  answered (a ∷ answers) rest = response a.0 a.1 a.2 ∷ answered answers rest

  -- The call has returned these bytes, with these replies left.
  abbrev pub Returns : List ℕ → List (Reply E) → Outcome E (List ℕ) → Type 0
  Returns bytes rest o = (c : Channel E) × (o ≡ done bytes c) × (c.replies ≡ rest)

  read_rounds_after_end :
      (handle : ℤ) (size : ℕ) (extra : List Response) (rest : List (Reply E))
      (parts : List (List ℕ)) (c : Channel E)
      → Returns
          (concat parts)
          rest
          (read_rounds handle size (answered extra rest) (length extra) true parts c)
  unfolding read_rounds close_deferred request
  read_rounds_after_end handle size [] rest parts c =
      (close_deferred handle (record c { replies = rest }), refl, refl)
  read_rounds_after_end handle size (a ∷ extra) rest parts c =
      read_rounds_after_end handle size extra rest parts c

  read_rounds-answered :
      (handle : ℤ) (size : ℕ) (answers : List Response) (end : Response) (extra : List Response)
      (rest : List (Reply E)) (parts : List (List ℕ)) (c : Channel E)
      → All (λ a. is_code a.0 2 ≡ false) answers
      → is_code end.0 2 ≡ true
      → Returns (concat parts ++ contents (answers ++ end ∷ [])) rest (
          read_rounds handle size
            (answered answers (answered (end ∷ extra) rest))
            (suc (length extra))
            false
            parts
            c)
  unfolding read_rounds
  read_rounds-answered handle size [] end extra rest parts c h e =
      let z =
        read_rounds_after_end handle size extra rest (with_part (parse_segment_frames end.2) parts)
          c in
      let b =
        concat-with_part (parse_segment_frames end.2) parts
        ∙ sym (ap (λ t. concat parts ++ t) (append-nil (parse_segment_frames end.2))) in
      rw (e, read_rounds) (z.0, z.1 ∙ ap (λ t. done t z.0) b, z.2)
  read_rounds-answered handle size (a ∷ answers) end extra rest parts c h e =
      let bytes = parse_segment_frames a.2 in
      let z =
        read_rounds-answered handle size answers end extra rest (with_part bytes parts)
          (flush (request (get_segment handle size) c)) h.1 e in
      let b =
        ap (λ t. t ++ contents (answers ++ end ∷ [])) (concat-with_part bytes parts)
        ∙ append_assoc (concat parts) bytes (contents (answers ++ end ∷ [])) in
      rw (h.0, read_rounds) (z.0, z.1 ∙ ap (λ t. done t z.0) b, z.2)

  skip_deferred-answered :
      (skipped : List Response) (rest : List (Reply E)) (c : Channel E)
      → skip_deferred (length skipped) (answered skipped rest) c
        ≡ done tt (record c { replies = rest; deferred = 0 })
  unfolding skip_deferred
  skip_deferred-answered [] rest c = refl
  skip_deferred-answered (a ∷ skipped) rest c = skip_deferred-answered skipped rest c

  -- The response behind those to the deferred requests.
  pub read_response-answered :
      (skipped : List Response) (a : Response) (rest : List (Reply E)) (c : Channel E)
      → length skipped ≡ c.deferred
      → c.replies ≡ answered skipped (answered (a ∷ []) rest)
      → read_response c ≡ done a (record c { replies = rest; deferred = 0 })
  unfolding read_response take_response
  read_response-answered skipped a rest c l r =
      let later = answered (a ∷ []) rest in
      let e : skip_deferred c.deferred c.replies c
          ≡ done tt (record c { replies = later; deferred = 0 }) =
        subst₂ (λ n rs. skip_deferred n rs c ≡ done tt (record c { replies = later; deferred = 0 }))
          l (sym r) (skip_deferred-answered skipped later c) in
      rw (e, take_response) refl

  -- The loop behind the opening.
  read_blob_step :
      (tx : ℕ) (id : List ℕ) (chunk_size : ℕ) (c : Channel E) (skipped : List Response)
      (opened : Response) (rest : List (Reply E)) (out : List ℕ) (left : List (Reply E))
      → length skipped ≡ c.deferred
      → c.replies ≡ answered skipped (answered (opened ∷ []) rest)
      → ((c' : Channel E)
          → Returns out left
              (read_rounds opened.0 (buffer_length chunk_size) rest pipeline_depth false [] c'))
      → Returns out left (read_blob tx id chunk_size c)
  unfolding read_blob open_blob_ request flush
  read_blob_step tx id chunk_size c skipped opened rest out left l e go =
      let u =
        read_response-answered skipped opened rest (flush (request (open_blob tx id) c)) l e in
      rw u (go _)

  -- A blob whose opening and segments are answered behind the requests that were deferred before, the
  -- last of them as the end, is read as the segments put together, whatever the server answers to
  -- the 31 requests behind the end, and the replies behind these are left.
  pub read_blob-answered :
      (tx : ℕ) (id : List ℕ) (chunk_size : ℕ) (c : Channel E) (skipped : List Response)
      (opened : Response) (answers : List Response) (end : Response) (extra : List Response)
      (rest : List (Reply E))
      → length skipped ≡ c.deferred
      → All (λ a. is_code a.0 2 ≡ false) answers
      → is_code end.0 2 ≡ true
      → length extra ≡ 31
      → c.replies ≡ answered skipped (answered (opened ∷ answers) (answered (end ∷ extra) rest))
      → Returns (contents (answers ++ end ∷ [])) rest (read_blob tx id chunk_size c)
  read_blob-answered tx id chunk_size c skipped opened answers end extra rest l h e n r =
      read_blob_step tx id chunk_size c skipped opened
        (answered answers (answered (end ∷ extra) rest)) (contents (answers ++ end ∷ [])) rest l r
        (λ c'.
          subst
            (λ m. Returns (contents (answers ++ end ∷ [])) rest (
              read_rounds opened.0 (buffer_length chunk_size)
                (answered answers (answered (end ∷ extra) rest)) m false [] c'))
            (omega (arith, n))
            (read_rounds-answered opened.0 (buffer_length chunk_size) answers end extra rest [] c' h
              e))

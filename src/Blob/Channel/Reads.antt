-- ===== src/Blob/Channel/Reads.antt =====
-- packages/core/src/protocol/blob.ts: readBlob and readBlobWindow. A round of a loop takes a reply, so
-- the loops are recursions over the replies. A loop is entered behind the responses to deferred
-- requests, when `deferred` is 0, and requests nothing deferred.
use fast_firebird.Base.{
  ℕ, zero, suc, Bool, true, false, List, [], ◌∷◌, ◌++◌, ◌==◌, if◌then◌else◌, length, concat, ℤ,
}
use fast_firebird.Blob.Channel.{
  Request, get_segment, Reply, response, failure, Channel, Outcome, done, threw, waiting, request,
  flush, close_deferred, ◌then◌, open_blob_, buffer_length, segment, drain, skip_deferred,
}

abbrev pub pipeline_depth : ℕ
pipeline_depth = 32

abbrev pub with_part : List ℕ → List (List ℕ) → List (List ℕ)
with_part bytes parts = if length bytes == 0 then parts else parts ++ bytes ∷ []

module _ {E : Type 0} where
  -- Requests written one behind the other.
  unfoldable pub requests_for : ℕ → Request → Channel E → Channel E
  unfolding request
  requests_for zero r c = c
  requests_for (suc n) r c = requests_for n r (request r c)

  -- The loop of readBlob, with `inFlight`, `eof` and `parts`.
  unfoldable pub read_rounds :
      ℤ → ℕ → List (Reply E) → ℕ → Bool → List (List ℕ) → Channel E → Outcome E (List ℕ)
  unfolding request flush close_deferred drain
  read_rounds handle size replies zero eof parts c =
      done (concat parts) (close_deferred handle (record c { replies = replies }))
  read_rounds handle size [] (suc n) eof parts c = waiting (record c { replies = [] })
  read_rounds handle size (failure e ∷ replies) (suc n) eof parts c =
      drain n (record c { replies = replies }) (λ c'. threw e (close_deferred handle c'))
  read_rounds handle size (response h id bytes ∷ replies) (suc n) eof parts c =
      let seg = segment (h, id, bytes) in
      elim eof [
        | true ↦ read_rounds handle size replies n true parts c
        | false ↦ elim seg.1 [
          | true ↦ read_rounds handle size replies n true (with_part seg.0 parts) c
          | false ↦
              read_rounds handle size replies (suc n) false (with_part seg.0 parts)
                (flush (request (get_segment handle size) c))
        ]
      ]

  unfoldable pub read_blob : ℕ → List ℕ → ℕ → Channel E → Outcome E (List ℕ)
  unfolding open_blob_ flush read_rounds
  read_blob tx id chunk_size c = open_blob_ tx id c then λ handle c'.
      let size = buffer_length chunk_size in
      read_rounds handle size c'.replies pipeline_depth false []
        (flush (requests_for pipeline_depth (get_segment handle size) c'))

  -- The loop of readBlobWindow, with `remaining`, `eof` and `chunks`.
  unfoldable pub window_rounds :
      List (Reply E) → ℕ → Bool → List (List ℕ) → Channel E → Outcome E (List (List ℕ) × Bool)
  unfolding drain
  window_rounds replies zero eof chunks c = done (chunks, eof) (record c { replies = replies })
  window_rounds [] (suc n) eof chunks c = waiting (record c { replies = [] })
  window_rounds (failure e ∷ replies) (suc n) eof chunks c =
      drain n (record c { replies = replies }) (λ c'. threw e c')
  window_rounds (response h id bytes ∷ replies) (suc n) eof chunks c =
      let seg = segment (h, id, bytes) in
      elim eof [
        | true ↦ window_rounds replies n true chunks c
        | false ↦ window_rounds replies n seg.1 (with_part seg.0 chunks) c
      ]

  -- The first await of the loop passes over the responses to deferred requests; a window of no
  -- requests awaits nothing.
  unfoldable pub read_blob_window : ℤ → ℕ → ℕ → Channel E → Outcome E (List (List ℕ) × Bool)
  unfolding flush skip_deferred drain window_rounds
  read_blob_window handle chunk_size zero c = done ([], false) (flush c)
  read_blob_window handle chunk_size (suc n) c =
      let c' = flush (requests_for (suc n) (get_segment handle (buffer_length chunk_size)) c) in
      elim (skip_deferred c'.deferred c'.replies c') [
        | waiting c'' ↦ waiting c''
        | threw e c'' ↦ drain n c'' (λ d. threw e d)
        | done _ c'' ↦ window_rounds c''.replies (suc n) false [] c''
      ]

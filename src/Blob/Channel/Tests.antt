-- ===== src/Blob/Channel/Tests.antt =====
-- The requests of protocol/blob.ts on concrete replies.
use fast_firebird.Base.{
  inr, ℕ, zero, suc, ◌≤◌, ◌≡◌, refl, List, [], ◌∷◌, ◌++◌, length, pos, concat, All,
}
use fast_firebird.Blob.Channel.{
  create_blob, close_blob, Reply, response, failure, Channel, total_length, Outcome, done, threw,
  waiting, read_response, skip_deferred, request, flush, open_blob_,
}
use fast_firebird.Blob.Channel.Reads.{read_blob}
use fast_firebird.Blob.Channel.Writes.{chunks_from, chunks_of, write_blob, segment_size}
use fast_firebird.Blob.Channel.Drained.{Settles}
use fast_firebird.Blob.Channel.InStep.{read_blob-Settles}
use fast_firebird.Blob.Channel.Reading.{Response, answered, contents, Returns, read_blob-answered}
use fast_firebird.Blob.Channel.Chunks.{Sent, batches, write_blob-answered}
use fast_firebird.Blob.Channel.Streams.{Pull, buffer, text, broken, bytes_of, write_blob_stream}
use fast_firebird.Blob.Channel.Streams.InStep.{write_blob_stream-Settles}
use fast_firebird.Blob.Channel.Streams.Segmented.{segments_of}
use fast_firebird.Blob.Channel.Streams.Delivered.{write_blob_stream-answered}

-- A connection on which one request is deferred.
abbrev behind : List (Reply ℕ) → Channel ℕ
behind replies = record {
  requests = close_blob (pos 5) ∷ [];
  flushed = 0;
  deferred = 1;
  replies = replies;
}

abbrev skipped : List Response
skipped = (pos 0, [], []) ∷ []

-- Two segments, the second the last, and 31 answers to the requests behind it.
abbrev ended : Response
ended = (pos 2, [], 1 ∷ 0 ∷ 9 ∷ [])

abbrev copies : ℕ → List Response
copies zero = []
copies (suc n) = (pos 2, [], []) ∷ copies n

abbrev opened : Response
opened = (pos 7, [], [])

abbrev first_segment : Response
first_segment = (pos 0, [], 2 ∷ 0 ∷ 5 ∷ 6 ∷ [])

abbrev blob_replies : List (Reply ℕ)
blob_replies =
    answered skipped (answered (opened ∷ first_segment ∷ []) (answered (ended ∷ copies 31) []))

read_blob-answered_example :
    Returns {E = ℕ}
      (contents (first_segment ∷ ended ∷ []))
      []
      (read_blob 3 (1 ∷ []) 100 (behind blob_replies))
read_blob-answered_example =
    read_blob-answered 3 (1 ∷ []) 100 (behind blob_replies) skipped opened (first_segment ∷ [])
      ended (copies 31) [] refl (refl, tt) refl refl refl

-- The deferred request went well, and the second segment fails.
abbrev failing : List (Reply ℕ)
failing = response (pos 0) [] [] ∷ response (pos 7) [] [] ∷ failure 4 ∷ failure 5 ∷ []

read_blob-Settles_example : Settles 5 1 (read_blob 3 (1 ∷ []) 100 (behind failing))
read_blob-Settles_example = read_blob-Settles 3 (1 ∷ []) 100 (behind failing) tt

-- An error of the deferred request is thrown, and the reply to the opening is left.
abbrev left_by : Outcome ℕ (List ℕ) → ℕ × ℕ
left_by (done bytes c) = (0, length c.replies)
left_by (threw e c) = (e, length c.replies)
left_by (waiting c) = (0, length c.replies)

deferred_error_thrown :
    left_by (read_blob 3 (1 ∷ []) 100 (behind (failure 6 ∷ response (pos 7) [] [] ∷ []))) ≡ (6, 1)
unfolding read_blob open_blob_ read_response skip_deferred request flush
deferred_error_thrown = refl

abbrev creation : Response
creation = (pos 7, 8 ∷ [], [])

write_blob-answered_example :
    Sent {E = ℕ}
      (8 ∷ [])
      (close_blob (pos 5)
        ∷ create_blob 3
        ∷ (batches (pos 7) (chunks_of (segment_size 2) (1 ∷ 2 ∷ 3 ∷ []))
            ++ close_blob (pos 7) ∷ []))
      []
      (write_blob 3
        (1 ∷ 2 ∷ 3 ∷ [])
        2
        (behind (answered skipped (answered (creation ∷ copies 3) []))))
    × (concat (chunks_of 2 (1 ∷ 2 ∷ 3 ∷ [])) ≡ 1 ∷ 2 ∷ 3 ∷ [])
    × All (λ s. length s ≤ 2) (chunks_of 2 (1 ∷ 2 ∷ 3 ∷ []))
unfolding chunks_of chunks_from
write_blob-answered_example =
    write_blob-answered 3 (1 ∷ 2 ∷ 3 ∷ []) 2
      (behind (answered skipped (answered (creation ∷ copies 3) []))) skipped creation (copies 3) []
      refl refl refl

-- Of no data one empty segment is sent, and the last segment is what is left.
chunks_of_none : chunks_of 2 [] ≡ [] ∷ []
unfolding chunks_of
chunks_of_none = refl

chunks_of_three : chunks_of 2 (1 ∷ 2 ∷ 3 ∷ []) ≡ (1 ∷ 2 ∷ []) ∷ (3 ∷ []) ∷ []
unfolding chunks_of chunks_from
chunks_of_three = refl

-- An item that is not the total length, and a reply cut short.
total_length_256 : total_length (6 ∷ 2 ∷ 0 ∷ 0 ∷ 1 ∷ []) ≡ 256
unfolding total_length
total_length_256 = refl

total_length_short : total_length (6 ∷ 2 ∷ []) ≡ 0
unfolding total_length
total_length_short = refl

-- A source that gives a Buffer, nothing, and a string whose characters are its bytes.
abbrev source : List (Pull ℕ)
source = buffer (1 ∷ []) ∷ buffer [] ∷ text (2 ∷ 3 ∷ []) ∷ []

write_blob_stream-answered_example :
    Sent {E = ℕ}
      (8 ∷ [])
      (close_blob (pos 5)
        ∷ create_blob 3
        ∷ (batches (pos 7) (segments_of (segment_size 2) (1 ∷ 2 ∷ 3 ∷ []))
            ++ close_blob (pos 7) ∷ []))
      []
      (write_blob_stream
        (λ s. inr s)
        0
        3
        source
        2
        (behind (answered skipped (answered (creation ∷ copies 3) []))))
unfolding chunks_from bytes_of
write_blob_stream-answered_example =
    write_blob_stream-answered (λ s. inr s) 0 3 source (1 ∷ 2 ∷ 3 ∷ []) 2
      (behind (answered skipped (answered (creation ∷ copies 3) []))) skipped creation (copies 3) []
      (
        1 ∷ [],
        2 ∷ 3 ∷ [],
        refl,
        refl,
        ([], 2 ∷ 3 ∷ [], refl, refl, (2 ∷ 3 ∷ [], [], refl, refl, refl)),
      )
      refl refl refl

-- The source throws behind a segment that is not flushed.
write_blob_stream-Settles_example : Settles {E = ℕ} 4 1 (
    write_blob_stream
      (λ s. inr s)
      0
      3
      (buffer (1 ∷ 2 ∷ []) ∷ broken 9 ∷ [])
      2
      (behind (answered skipped (answered (creation ∷ copies 1) []))))
write_blob_stream-Settles_example =
    write_blob_stream-Settles (λ s. inr s) 0 3 (buffer (1 ∷ 2 ∷ []) ∷ broken 9 ∷ []) 2
      (behind (answered skipped (answered (creation ∷ copies 1) []))) tt

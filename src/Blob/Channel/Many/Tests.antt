-- ===== src/Blob/Channel/Many/Tests.antt =====
-- Two blobs read at once.
use fast_firebird.Base.{ℕ, ◌≡◌, refl, Option, none, some, List, [], ◌∷◌, length, pos}
use fast_firebird.Blob.Segments.{parse_segment_frames, frames_from}
use fast_firebird.Blob.Channel.{
  close_blob, Reply, response, failure, Channel, Outcome, done, threw, waiting, request, flush,
}
use fast_firebird.Blob.Channel.Many.{
  write, flush_now, open_ahead, ask, fill, fill_windows, pump, ready, got_segment, take_reply,
  update_at, with_segment, ended_from,
}
use fast_firebird.Blob.Channel.Many.Rounds.{batch_rounds, read_blobs}
use fast_firebird.Blob.Channel.Many.GivenUp.{Answers}
use fast_firebird.Blob.Channel.Many.InStep.{read_blobs-Answers}

abbrev two_blobs : List (Reply ℕ)
two_blobs =
    response (pos 7) [] []
    ∷ response (pos 8) [] []
    ∷ response (pos 2) [] (2 ∷ 0 ∷ 5 ∷ 6 ∷ [])
    ∷ response (pos 2) [] []
    ∷ response (pos 2) [] []
    ∷ response (pos 2) [] []
    ∷ response (pos 0) [] (1 ∷ 0 ∷ 9 ∷ [])
    ∷ response (pos 2) [] (1 ∷ 0 ∷ 4 ∷ [])
    ∷ response (pos 2) [] []
    ∷ response (pos 2) [] []
    ∷ response (pos 0) [] []
    ∷ response (pos 2) [] []
    ∷ failure 3
    ∷ []

abbrev on_channel : List (Reply ℕ) → Channel ℕ
on_channel replies = record { requests = []; flushed = 0; deferred = 0; replies = replies }

abbrev returned : Outcome ℕ (List (List ℕ)) → Option (List (List ℕ) × ℕ × ℕ)
returned (done blobs c) = some (blobs, length c.requests, length c.replies)
returned (threw e c) = none
returned (waiting c) = none

-- The second blob's first segment asks for one more, and the error of a close is dropped.
two_blobs_read :
    returned (read_blobs 3 ((1 ∷ []) ∷ (2 ∷ []) ∷ []) 100 (on_channel two_blobs))
    ≡ some ((5 ∷ 6 ∷ []) ∷ (9 ∷ 4 ∷ []) ∷ [], 13, 0)
unfolding read_blobs batch_rounds ready pump open_ahead fill_windows fill ask write flush_now
    request flush take_reply got_segment update_at with_segment ended_from parse_segment_frames
    frames_from
two_blobs_read = refl

-- One request is deferred, and its response comes first.
abbrev behind : List (Reply ℕ) → Channel ℕ
behind replies = record {
  requests = close_blob (pos 5) ∷ [];
  flushed = 0;
  deferred = 1;
  replies = replies;
}

read_blobs-Answers_example : Answers 4 1 (
    read_blobs 3
      ((1 ∷ []) ∷ (2 ∷ []) ∷ [])
      100
      (behind (response (pos 0) [] [] ∷ response (pos 7) [] [] ∷ failure 4 ∷ [])))
read_blobs-Answers_example =
    read_blobs-Answers 3 ((1 ∷ []) ∷ (2 ∷ []) ∷ []) 100
      (behind (response (pos 0) [] [] ∷ response (pos 7) [] [] ∷ failure 4 ∷ [])) tt

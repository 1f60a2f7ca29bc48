-- ===== src/Blob/Channel/Many/Rounds.antt =====
-- The loop of readBlobs, a round of which takes a reply, and its catch clause.
use fast_firebird.Base.{ℕ, inl, inr, true, false, none, some, List, [], ◌∷◌, length, map, concat}
use fast_firebird.Blob.Channel.{
  Reply, Channel, Outcome, done, threw, waiting, close_deferred, skip_deferred, buffer_length,
  drain,
}
use fast_firebird.Blob.Channel.Reads.{read_blob}
use fast_firebird.Blob.Channel.Many.{
  BlobState, new_state, Pending, Batch, flush_now, ready, take_reply,
}

module _ {E : Type 0} where
  -- `for (const b of blobs) if (b.handle !== null && !b.eof) closeBlobDeferred(wire, b.handle)`
  unfoldable pub close_all : List BlobState → Channel E → Channel E
  unfolding close_deferred
  close_all [] c = c
  close_all (s ∷ states) c = elim s.handle [
    | none ↦ close_all states c
    | some handle ↦ elim s.eof [
      | true ↦ close_all states c
      | false ↦ close_all states (close_deferred handle c)
    ]
  ]

  -- The catch clause.
  unfoldable pub give_up_batch : E → Batch E → Outcome E (List (List ℕ))
  unfolding flush_now drain close_all
  give_up_batch e b =
      let b' = flush_now b in
      drain (length b'.pending) b'.channel (λ c. threw e (close_all b'.blobs c))

  abbrev pub shifted : List Pending → List (Reply E) → Batch E → Batch E
  shifted pending replies b = record b {
    pending = pending;
    channel = record b.channel { replies = replies };
  }

  -- A round from the shift on, and then the next one up to its shift.
  unfoldable pub batch_rounds :
      ℕ → List (List ℕ) → ℕ → List (Reply E) → Batch E → Outcome E (List (List ℕ))
  unfolding ready take_reply give_up_batch
  batch_rounds tx ids size [] b = elim b.pending [
    | [] ↦ done (map (λ s. concat s.parts) b.blobs) (record b.channel { replies = [] })
    | _ ∷ _ ↦ waiting (record b.channel { replies = [] })
  ]
  batch_rounds tx ids size (r ∷ replies) b = elim b.pending [
    | [] ↦ done (map (λ s. concat s.parts) b.blobs) (record b.channel { replies = r ∷ replies })
    | p ∷ pending ↦ elim (take_reply p r (shifted pending replies b)) [
      | inl e ↦ give_up_batch e (shifted pending replies b)
      | inr b' ↦ batch_rounds tx ids size replies (ready tx ids size b')
    ]
  ]

  abbrev pub new_batch : List (List ℕ) → Channel E → Batch E
  new_batch ids c = record {
    blobs = map (λ id. new_state) ids;
    pending = [];
    unflushed = [];
    next_to_open = 0;
    head = 0;
    total_in_flight = 0;
    channel = c;
  }

  -- The loop from the first shift on: its await passes over the responses to deferred requests, and an
  -- error of one of them is thrown, as the first request that is pending opens a blob.
  unfoldable pub start_rounds : ℕ → List (List ℕ) → ℕ → Batch E → Outcome E (List (List ℕ))
  unfolding skip_deferred give_up_batch batch_rounds
  start_rounds tx ids size b = elim b.pending [
    | [] ↦ done (map (λ s. concat s.parts) b.blobs) b.channel
    | p ∷ pending ↦ elim (skip_deferred b.channel.deferred b.channel.replies b.channel) [
      | waiting c ↦ waiting c
      | threw e c ↦ give_up_batch e (record b { pending = pending; channel = c })
      | done _ c ↦ batch_rounds tx ids size c.replies (record b { channel = c })
    ]
  ]

  unfoldable pub read_blobs : ℕ → List (List ℕ) → ℕ → Channel E → Outcome E (List (List ℕ))
  unfolding read_blob ready start_rounds
  read_blobs tx [] chunk_size c = done [] c
  read_blobs tx (id ∷ []) chunk_size c = elim (read_blob tx id chunk_size c) [
    | done bytes c' ↦ done (bytes ∷ []) c'
    | threw e c' ↦ threw e c'
    | waiting c' ↦ waiting c'
  ]
  read_blobs tx (id ∷ id' ∷ ids) chunk_size c =
      let all = id ∷ id' ∷ ids in
      let size = buffer_length chunk_size in
      start_rounds tx all size (ready tx all size (new_batch all c))

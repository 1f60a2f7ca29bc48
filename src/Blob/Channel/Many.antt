-- ===== src/Blob/Channel/Many.antt =====
-- packages/core/src/protocol/blob.ts: readBlobs, which reads several blobs at once. Each round of its
-- loop awaits one reply, so the loop is a recursion over the replies.
pub mod Rounds
pub mod Accounted
pub mod GivenUp
pub mod InStep
mod Tests
use fast_firebird.Base.{
  ℕ, zero, suc, ◌+◌, ◌-◌, ◌*◌, ◌⊎◌, inl, inr, Bool, true, false, Option, none, some, List, [], ◌∷◌,
  ◌++◌, ◌==◌, ltb, leb, if◌then◌else◌, length, drop, min, map, concat, ℤ,
}
use fast_firebird.Blob.Channel.{
  Request, open_blob, get_segment, close_blob, Reply, response, failure, Channel, Outcome, done,
  threw, waiting, request, flush, close_deferred, buffer_length, segment, drain,
}
use fast_firebird.Blob.Channel.Reads.{pipeline_depth, with_part, read_blob}

abbrev pub open_ahead_limit : ℕ
open_ahead_limit = 10

abbrev pub ramp_start : ℕ
ramp_start = 4

pub record BlobState : Type 0 where
  pub handle : Option ℤ
  pub parts : List (List ℕ)
  pub eof : Bool
  pub in_flight : ℕ
  pub cap : ℕ
  pub data_segs : ℕ

abbrev pub new_state : BlobState
new_state = record {
  handle = none;
  parts = [];
  eof = false;
  in_flight = 0;
  cap = ramp_start;
  data_segs = 0;
}

pub data Pending : Type 0 where
  opening segment_of : ℕ → Pending
  closing : Pending

-- The state of the call; `unflushed` is written but not sent.
pub record Batch (E : Type 0) : Type 0 where
  pub blobs : List BlobState
  pub pending : List Pending
  pub unflushed : List Pending
  pub next_to_open : ℕ
  pub head : ℕ
  pub total_in_flight : ℕ
  pub channel : Channel E

unfoldable pub update_at : ℕ → (BlobState → BlobState) → List BlobState → List BlobState
update_at n f [] = []
update_at zero f (b ∷ blobs) = f b ∷ blobs
update_at (suc n) f (b ∷ blobs) = b ∷ update_at n f blobs

-- `while (head < blobs.length && blobs[head]!.eof) head++` over the blobs from the head on.
unfoldable pub ended_from : List BlobState → ℕ
ended_from [] = 0
ended_from (b ∷ blobs) = if b.eof then 1 + ended_from blobs else 0

-- A segment of a blob that has not ended: its bytes, the ramp of its window, and whether it ends.
unfoldable pub with_segment : List ℕ × Bool → BlobState → BlobState
with_segment (bytes, ends) b =
    let b' = record b { parts = with_part bytes b.parts } in
    if ends
    then record b' { eof = true }
    else if leb b.cap (b.data_segs + 1)
    then record b' { data_segs = b.data_segs + 1; cap = min (b.cap * 2) pipeline_depth }
    else record b' { data_segs = b.data_segs + 1 }

module _ {E : Type 0} where
  unfoldable pub write : Request → Pending → Batch E → Batch E
  unfolding request
  write r p b = record b { channel = request r b.channel; unflushed = b.unflushed ++ p ∷ [] }

  unfoldable pub flush_now : Batch E → Batch E
  unfolding flush
  flush_now b = if length b.unflushed == 0 then b else record b {
    channel = flush b.channel;
    pending = b.pending ++ b.unflushed;
    unflushed = [];
  }

  -- The first loop of pump, over the ids that are not opened.
  unfoldable pub open_ahead : ℕ → List (List ℕ) → Batch E → Batch E
  unfolding write
  open_ahead tx [] b = b
  open_ahead tx (id ∷ ids) b = elim (ltb b.next_to_open (b.head + open_ahead_limit)) [
    | false ↦ b
    | true ↦ open_ahead tx ids (record (write (open_blob tx id) (opening b.next_to_open) b) {
      next_to_open = b.next_to_open + 1;
    })
  ]

  -- `while (b.inFlight < cap)`, with how much is left.
  unfoldable pub ask : ℕ → ℕ → ℤ → ℕ → Batch E → Batch E
  unfolding write update_at
  ask zero size handle i b = b
  ask (suc n) size handle i b =
      ask n size handle i (record (write (get_segment handle size) (segment_of i) b) {
        blobs = update_at i (λ s. record s { in_flight = s.in_flight + 1 }) b.blobs;
        total_in_flight = b.total_in_flight + 1;
      })

  unfoldable pub fill : ℕ → BlobState → ℕ → Batch E → Batch E
  unfolding ask
  fill size s i b = elim s.eof [
    | true ↦ b
    | false ↦ elim s.handle [
      | none ↦ b
      | some handle ↦
          ask (min s.cap (s.in_flight + (pipeline_depth - b.total_in_flight)) - s.in_flight) size
            handle i b
    ]
  ]

  -- The second loop of pump, over the blobs from the head on.
  unfoldable pub fill_windows : ℕ → List BlobState → ℕ → Batch E → Batch E
  unfolding fill
  fill_windows size [] i b = b
  fill_windows size (s ∷ states) i b = elim (ltb b.total_in_flight pipeline_depth) [
    | false ↦ b
    | true ↦ fill_windows size states (i + 1) (fill size s i b)
  ]

  unfoldable pub pump : ℕ → List (List ℕ) → ℕ → Batch E → Batch E
  unfolding open_ahead fill_windows
  pump tx ids size b =
      let b' = open_ahead tx (drop b.next_to_open ids) b in
      fill_windows size (drop b'.head b'.blobs) b'.head b'

  -- A round up to the shift; nothing is pending behind it only if all is done.
  unfoldable pub ready : ℕ → List (List ℕ) → ℕ → Batch E → Batch E
  unfolding pump flush_now
  ready tx ids size b =
      let b' = pump tx ids size b in
      let b'' = if leb 8 (length b'.unflushed) then flush_now b' else b' in
      if length b''.pending == 0 then flush_now b'' else b''

  -- A segment of the blob i, whose request is counted off.
  unfoldable pub got_segment : ℕ → List ℕ × Bool → Batch E → Batch E
  unfolding write update_at with_segment ended_from
  got_segment i seg b =
      let off = record b {
        blobs = update_at i (λ s. record s { in_flight = s.in_flight - 1 }) b.blobs;
        total_in_flight = b.total_in_flight - 1;
      } in
      elim (drop i off.blobs) [
        | [] ↦ off
        | s ∷ _ ↦ elim s.eof [
          | true ↦ off
          | false ↦
              let kept = record off { blobs = update_at i (with_segment seg) off.blobs } in
              elim seg.1 [
                | false ↦ kept
                | true ↦ elim s.handle [
                  | none ↦ kept
                  | some handle ↦
                      let b' = write (close_blob handle) closing kept in
                      record b' { head = b'.head + ended_from (drop b'.head b'.blobs) }
                ]
              ]
        ]
      ]

  -- The reply to a pending request, or the error that it throws.
  unfoldable pub take_reply : Pending → Reply E → Batch E → E ⊎ Batch E
  unfolding got_segment update_at
  take_reply (opening i) (response h id bytes) b =
      inr (record b { blobs = update_at i (λ s. record s { handle = some h }) b.blobs })
  take_reply (segment_of i) (response h id bytes) b = inr (got_segment i (segment (h, id, bytes)) b)
  take_reply closing r b = inr b
  take_reply _ (failure e) b = inl e

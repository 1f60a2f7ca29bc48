-- ===== src/Blob/InlineCache/Claims.antt =====
-- What a claim gives, and what a store keeps.
use fast_firebird.Base.{
  ℕ, ◌+◌, ◌≡◌, refl, ap, ap₂, sym, ◌∙◌, Bool, true, false, inl, inr, Bool-cases, Option-cases,
  Option, none, some, List, leb, ◌==◌, ==_iff, ◌&&◌, ltb, if◌then◌else◌, length, arith,
}
use mathlib.Core.Option
use fast_firebird.Base.Keys.{
  JsMap, get, delete, set_entry, nat_key, list_key, Distinct, get-set_entry, get-delete,
}
use fast_firebird.Blob.Segments.{parse_segment_frames}
use fast_firebird.Blob.InlineCache.{
  InlineBlobCache, Entries, entries_of, store, take_from, take_blob,
}

-- What `take` would find.
abbrev pub found : ℕ → List ℕ → InlineBlobCache → Option (List ℕ)
found tx_id blob_id c = get blob_id (entries_of (get tx_id c.by_tx))

if_found :
    (b : Bool) (id : List ℕ) (m : Entries) (o : Option Entries)
    → get id (entries_of (if b then some m else o))
      ≡ (if b then get id m else get id (entries_of o))
if_found true id m o = refl
if_found false id m o = refl

found_set :
    (tx_id tx : ℕ) (id : List ℕ) (m : Entries) (all : JsMap ℕ Entries)
    → get id (entries_of (get tx (set_entry tx_id m all)))
      ≡ (if tx_id == tx then get id m else get id (entries_of (get tx all)))
found_set tx_id tx id m all =
    ap (λ o. get id (entries_of o)) (get-set_entry tx_id tx m all)
    ∙ if_found (tx_id == tx) id m (get tx all)

-- Where the transactions are the same, so is what is found.
same_tx :
    (tx_id tx : ℕ) (id : List ℕ) (new : Option (List ℕ)) (b : Bool) (c : InlineBlobCache)
    → (if tx_id == tx then (if b then new else found tx_id id c) else found tx id c)
      ≡ (if tx_id == tx && b then new else found tx id c)
same_tx tx_id tx id new b c = elim (Bool-cases (tx_id == tx)) [
  | inr e ↦ rw e refl
  | inl e ↦ rw (e, (==_iff tx_id tx).0 e) refl
]

-- Storing a blob that fits makes it the one that is found under its id in its transaction, and a
-- blob that does not fit changes nothing; no other blob is affected.
pub found-store :
    (tx_id tx : ℕ) (blob_id id bytes : List ℕ) (c : InlineBlobCache)
    → found tx id (store tx_id blob_id bytes c) ≡ (
        if leb (c.used_bytes + length bytes) c.capacity && (tx_id == tx && list_key.same blob_id id)
        then some bytes
        else found tx id c)
unfolding store
found-store tx_id tx blob_id id bytes c =
    elim (Bool-cases (ltb c.capacity (c.used_bytes + length bytes))) [
      | inl e ↦
          let full : leb (c.used_bytes + length bytes) c.capacity ≡ false = ground arith in
          rw (e, full, store) refl
      | inr e ↦
          let fits : leb (c.used_bytes + length bytes) c.capacity ≡ true = ground arith in
          let old = entries_of (get tx_id c.by_tx) in
          rw (e, fits, store)
            (found_set tx_id tx id (set_entry blob_id bytes old) c.by_tx
              ∙ ap (λ o. if tx_id == tx then o else found tx id c)
                  (get-set_entry blob_id id bytes old)
              ∙ same_tx tx_id tx id (some bytes) (list_key.same blob_id id) c)
    ]

absent_same :
    (tx_id tx : ℕ) (blob_id id : List ℕ) (c : InlineBlobCache)
    → found tx_id blob_id c ≡ none
    → found tx id c ≡ (if tx_id == tx && list_key.same blob_id id then none else found tx id c)
absent_same tx_id tx blob_id id c e = elim (Bool-cases (tx_id == tx && list_key.same blob_id id)) [
  | inr g ↦ rw g refl
  | inl g ↦
      let p : tx_id ≡ tx = ground arith in
      let q : list_key.same blob_id id ≡ true = ground arith in
      rw g (ap₂ (λ t i. found t i c) (sym p) (sym ((list_key.same_iff blob_id id).0 q)) ∙ e)
]

-- A claim answers the unframed bytes of the blob that is found, and takes it out: the same claim
-- again finds nothing, and any other claim finds what it would have found.
pub found-take_blob :
    (tx_id tx : ℕ) (blob_id id : List ℕ) (c : InlineBlobCache)
    → Distinct (entries_of (get tx_id c.by_tx))
    → let out = take_blob tx_id blob_id c in
      (out.0 ≡ Option.map parse_segment_frames (found tx_id blob_id c))
      × found tx id out.1
        ≡ (if tx_id == tx && list_key.same blob_id id then none else found tx id c)
unfolding take_blob take_from
found-take_blob tx_id tx blob_id id c d = elim (Option-cases (found tx_id blob_id c)) [
  | inl e ↦ rw (e, take_from) (refl, absent_same tx_id tx blob_id id c e)
  | inr (bytes, e) ↦
      rw (e, take_from)
        (
          refl,
          found_set tx_id tx id (delete blob_id (entries_of (get tx_id c.by_tx))) c.by_tx
              ∙ ap (λ o. if tx_id == tx then o else found tx id c)
                  (get-delete blob_id id (entries_of (get tx_id c.by_tx)) d)
              ∙ same_tx tx_id tx id none (list_key.same blob_id id) c,
        )
]

-- ===== src/Blob/InlineCache/Budget.antt =====
-- The bytes that are counted are those held, and no more than the capacity.
use fast_firebird.Base.{
  ℕ, ◌+◌, ◌-◌, ◌≤◌, ◌≡◌, refl, ap, ◌∙◌, inl, inr, Bool-cases, Option-cases, Option, none, some,
  List, [], ◌∷◌, ltb, length, arith,
}
use fast_firebird.Base.Keys.{JsMap, get, delete, set_entry, nat_key, list_key, Key}
use fast_firebird.Blob.InlineCache.{
  InlineBlobCache, Entries, new_inline_cache, entries_of, size_of, store, take_from, take_blob,
  give_up, clear_tx, clear,
}

module _ {V : Type 0} (weight : V → ℕ) where
  abbrev pub weight_of : Option V → ℕ
  weight_of none = 0
  weight_of (some v) = weight v

module _ {K V : Type 0} ⦃k : Key K⦄ (weight : V → ℕ) where
  -- The sum over a map.
  abbrev pub total : JsMap K V → ℕ
  total [] = 0
  total ((key, v) ∷ m) = weight v + total m

  pub total-set_entry :
      (key : K) (v : V) (m : JsMap K V)
      → total (set_entry key v m) + weight_of weight (get key m) ≡ total m + weight v
  unfolding set_entry get
  total-set_entry key v [] = omega arith
  total-set_entry key v ((j, w) ∷ m) = ground (arith, total-set_entry key v m)

  pub total-delete :
      (key : K) (m : JsMap K V) → total (delete key m) + weight_of weight (get key m) ≡ total m
  unfolding delete get
  total-delete key [] = omega arith
  total-delete key ((j, w) ∷ m) = ground (arith, total-delete key m)

abbrev pub bytes_in : Entries → ℕ
bytes_in m = total length m

abbrev pub held : JsMap ℕ Entries → ℕ
held m = total bytes_in m

-- The counter is right, and within the capacity.
abbrev pub InBudget : InlineBlobCache → Type 0
InBudget c = (c.used_bytes ≡ held c.by_tx) × c.used_bytes ≤ c.capacity

bytes-entries_of : (o : Option Entries) → bytes_in (entries_of o) ≡ weight_of bytes_in o
bytes-entries_of none = refl
bytes-entries_of (some m) = refl

size_lem : (o : Option (List ℕ)) → size_of o ≡ weight_of length o
size_lem none = refl
size_lem (some b) = refl

store-InBudget :
    (tx_id : ℕ) (blob_id bytes : List ℕ) (c : InlineBlobCache)
    → InBudget c
    → InBudget (store tx_id blob_id bytes c)
unfolding store
store-InBudget tx_id blob_id bytes c h =
    elim (Bool-cases (ltb c.capacity (c.used_bytes + length bytes))) [
      | inl e ↦ rw (e, store) h
      | inr e ↦
          let tx = entries_of (get tx_id c.by_tx) in
          let counted : (c.used_bytes - size_of (get blob_id tx) + length bytes
                ≡ held (set_entry tx_id (set_entry blob_id bytes tx) c.by_tx))
              × c.used_bytes - size_of (get blob_id tx) + length bytes ≤ c.capacity =
            let room : c.used_bytes + length bytes ≤ c.capacity = ground arith in
            omega (
              arith,
              room,
              h.0,
              total-set_entry bytes_in tx_id (set_entry blob_id bytes tx) c.by_tx,
              total-set_entry length blob_id bytes tx,
              total-delete bytes_in tx_id c.by_tx,
              total-delete length blob_id tx,
              bytes-entries_of (get tx_id c.by_tx),
              size_lem (get blob_id tx),
            ) in
          rw (e, store) counted
    ]

take_from-InBudget :
    (tx_id : ℕ) (blob_id : List ℕ) (o : Option Entries) (b : Option (List ℕ)) (c : InlineBlobCache)
    → get tx_id c.by_tx ≡ o
    → get blob_id (entries_of o) ≡ b
    → InBudget c
    → InBudget (take_from tx_id blob_id (entries_of o) b c).1
unfolding take_from
take_from-InBudget tx_id blob_id o none c e f h = h
take_from-InBudget tx_id blob_id o (some bytes) c e f h =
    let tx = entries_of o in
    omega (
      arith,
      h.0,
      h.1,
      total-set_entry bytes_in tx_id (delete blob_id tx) c.by_tx,
      total-delete length blob_id tx,
      bytes-entries_of o,
      ap (weight_of bytes_in) e,
      ap (weight_of length) f,
    )

give_up_lem : (m : Entries) (used : ℕ) → give_up m used ≡ used - bytes_in m
unfolding give_up
give_up_lem [] used = omega arith
give_up_lem ((id, bytes) ∷ m) used = omega (arith, give_up_lem m (used - length bytes))

clear_tx-InBudget : (tx_id : ℕ) (c : InlineBlobCache) → InBudget c → InBudget (clear_tx tx_id c)
unfolding clear_tx
clear_tx-InBudget tx_id c h = elim (Option-cases (get tx_id c.by_tx)) [
  | inl e ↦ rw (e, clear_tx) h
  | inr (tx, e) ↦
      rw (e, clear_tx)
        (
          omega (
            arith,
            h.0,
            h.1,
            give_up_lem tx c.used_bytes,
            total-delete bytes_in tx_id c.by_tx,
            ap (weight_of bytes_in) e,
          ),
          omega (arith, h.1, give_up_lem tx c.used_bytes),
        )
]

-- The calls of the cache.
pub data Call : Type 0 where
  stores : ℕ → List ℕ → List ℕ → Call
  takes : ℕ → List ℕ → Call
  ends : ℕ → Call
  clears : Call

abbrev pub call : InlineBlobCache → Call → InlineBlobCache
call c (stores tx_id blob_id bytes) = store tx_id blob_id bytes c
call c (takes tx_id blob_id) = (take_blob tx_id blob_id c).1
call c (ends tx_id) = clear_tx tx_id c
call c clears = clear c

abbrev pub calls : List Call → InlineBlobCache → InlineBlobCache
calls [] c = c
calls (x ∷ xs) c = calls xs (call c x)

take_from_capacity :
    (tx_id : ℕ) (blob_id : List ℕ) (tx : Entries) (b : Option (List ℕ)) (c : InlineBlobCache)
    → (take_from tx_id blob_id tx b c).1.capacity ≡ c.capacity
unfolding take_from
take_from_capacity tx_id blob_id tx none c = refl
take_from_capacity tx_id blob_id tx (some bytes) c = refl

clear_tx_capacity : (tx_id : ℕ) (c : InlineBlobCache) → (clear_tx tx_id c).capacity ≡ c.capacity
unfolding clear_tx
clear_tx_capacity tx_id c = elim (Option-cases (get tx_id c.by_tx)) [
  | inl e ↦ rw (e, clear_tx) refl
  | inr (tx, e) ↦ rw (e, clear_tx) refl
]

call-InBudget :
    (x : Call) (c : InlineBlobCache)
    → InBudget c
    → InBudget (call c x) × ((call c x).capacity ≡ c.capacity)
unfolding take_blob clear store take_from clear_tx
call-InBudget (stores tx_id blob_id bytes) c h =
    (store-InBudget tx_id blob_id bytes c h, ground arith)
call-InBudget (takes tx_id blob_id) c h = (
  take_from-InBudget tx_id blob_id (get tx_id c.by_tx) _ c refl refl h,
  take_from_capacity tx_id blob_id _ _ c,
)
call-InBudget (ends tx_id) c h = (clear_tx-InBudget tx_id c h, clear_tx_capacity tx_id c)
call-InBudget clears c h = ((refl, omega arith), refl)

calls-InBudget :
    (xs : List Call) (c : InlineBlobCache)
    → InBudget c
    → InBudget (calls xs c) × ((calls xs c).capacity ≡ c.capacity)
calls-InBudget [] c h = (h, refl)
calls-InBudget (x ∷ xs) c h =
    let one = call-InBudget x c h in
    let rest = calls-InBudget xs (call c x) one.0 in (rest.0, rest.1 ∙ one.1)

-- After any calls on a new cache the counter is the number of the bytes held, and these are no
-- more than the capacity.
pub calls-new_inline_cache :
    (capacity : ℕ) (xs : List Call)
    → let c = calls xs (new_inline_cache capacity) in
      (c.used_bytes ≡ held c.by_tx) × held c.by_tx ≤ capacity
unfolding new_inline_cache
calls-new_inline_cache capacity xs =
    let h = calls-InBudget xs (new_inline_cache capacity) (refl, omega arith) in
    (h.0.0, omega (arith, h.0.0, h.0.1, h.1))

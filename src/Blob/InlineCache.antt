-- ===== src/Blob/InlineCache.antt =====
-- packages/core/src/api/inline-cache.ts: blobs that came ahead of the rows. A blob id stands for
-- its hexadecimal text.
pub mod Budget
pub mod Claims
mod Tests
use fast_firebird.Base.{ℕ, ◌+◌, ◌-◌, Option, none, some, List, [], ◌∷◌, ltb, if◌then◌else◌, length}
use fast_firebird.Base.Keys.{JsMap, get, delete, set_entry, nat_key, list_key}
use fast_firebird.Blob.Segments.{parse_segment_frames}

abbrev pub Entries : Type 0
Entries = JsMap (List ℕ) (List ℕ)

pub record InlineBlobCache : Type 0 where
  pub by_tx : JsMap ℕ Entries
  pub used_bytes : ℕ
  pub capacity : ℕ

unfoldable pub new_inline_cache : ℕ → InlineBlobCache
new_inline_cache capacity = record { by_tx = []; used_bytes = 0; capacity = capacity }

-- `this.byTx.get(txId) ?? new Map()`
abbrev pub entries_of : Option Entries → Entries
entries_of none = []
entries_of (some m) = m

abbrev pub size_of : Option (List ℕ) → ℕ
size_of none = 0
size_of (some bytes) = length bytes

unfoldable pub store : ℕ → List ℕ → List ℕ → InlineBlobCache → InlineBlobCache
store tx_id blob_id bytes c =
    let tx = entries_of (get tx_id c.by_tx) in
    if ltb c.capacity (c.used_bytes + length bytes) then c else record c {
      by_tx = set_entry tx_id (set_entry blob_id bytes tx) c.by_tx;
      used_bytes = c.used_bytes - size_of (get blob_id tx) + length bytes;
    }

unfoldable pub take_from :
    ℕ → List ℕ → Entries → Option (List ℕ) → InlineBlobCache → Option (List ℕ) × InlineBlobCache
take_from tx_id blob_id tx none c = (none, c)
take_from tx_id blob_id tx (some bytes) c = (
  some (parse_segment_frames bytes),
  record c {
    by_tx = set_entry tx_id (delete blob_id tx) c.by_tx;
    used_bytes = c.used_bytes - length bytes;
  },
)

unfoldable pub take_blob : ℕ → List ℕ → InlineBlobCache → Option (List ℕ) × InlineBlobCache
take_blob tx_id blob_id c =
    let tx = entries_of (get tx_id c.by_tx) in take_from tx_id blob_id tx (get blob_id tx) c

-- `for (const data of tx.values()) this.usedBytes -= data.length;`
unfoldable pub give_up : Entries → ℕ → ℕ
give_up [] used = used
give_up ((id, bytes) ∷ m) used = give_up m (used - length bytes)

unfoldable pub clear_tx : ℕ → InlineBlobCache → InlineBlobCache
clear_tx tx_id c = elim (get tx_id c.by_tx) [
  | none ↦ c
  | some tx ↦ record c { by_tx = delete tx_id c.by_tx; used_bytes = give_up tx c.used_bytes }
]

unfoldable pub clear : InlineBlobCache → InlineBlobCache
clear c = record c { by_tx = []; used_bytes = 0 }

-- ===== src/Blob/InlineCache/Tests.antt =====
-- A cache of ten bytes, and the theorems applied to it.
use fast_firebird.Base.{◌≤◌, ◌≡◌, List, [], ◌∷◌}
use fast_firebird.Base.Keys.{list_key}
use fast_firebird.Blob.InlineCache.{InlineBlobCache, new_inline_cache}
use fast_firebird.Blob.InlineCache.Budget.{
  Call, stores, takes, ends, calls, held, calls-new_inline_cache,
}

abbrev session : List Call
session =
    stores 1 (5 ∷ []) (2 ∷ 0 ∷ 8 ∷ 9 ∷ [])
    ∷ stores 2 (5 ∷ []) (1 ∷ 0 ∷ 4 ∷ [])
    ∷ stores 1 (6 ∷ []) (2 ∷ 0 ∷ 1 ∷ 1 ∷ [])
    ∷ takes 1 (5 ∷ [])
    ∷ ends 2
    ∷ []

calls-new_inline_cache_example :
    let c = calls session (new_inline_cache 10) in (c.used_bytes ≡ held c.by_tx) × held c.by_tx ≤ 10
calls-new_inline_cache_example = calls-new_inline_cache 10 session

abbrev one_blob : InlineBlobCache
one_blob = record {
  by_tx = (1, (5 ∷ [], 2 ∷ 0 ∷ 8 ∷ 9 ∷ []) ∷ []) ∷ [];
  used_bytes = 4;
  capacity = 10;
}

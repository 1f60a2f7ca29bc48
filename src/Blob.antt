-- ===== src/Blob.antt =====
-- packages/core/src/protocol/blob.ts and api/inline-cache.ts: blob data as the server sends it.
pub mod Segments
pub mod Channel
pub mod InlineCache

-- ===== src/Cache.antt =====
-- packages/core/src/api: the caches of an attachment.
pub mod Statements

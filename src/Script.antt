-- ===== src/Script.antt =====
-- packages/core/src/script and api/named-params.ts: SQL text before it reaches the server.
pub mod Scanner
pub mod Comments
pub mod Words
pub mod Commands
pub mod Parser
pub mod NamedParams

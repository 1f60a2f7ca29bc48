-- ===== src/Wire.antt =====
-- packages/core/src/protocol: what goes over the connection.
pub mod Xdr
pub mod Connection
pub mod Cipher
pub mod Arc4
pub mod Transport
pub mod Responses

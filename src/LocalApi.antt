-- ===== src/LocalApi.antt =====
-- The local HTTP API (src/local_api.rs): who is let in, where a request goes, and how much of its body
-- is read. A header is the list of its bytes.
pub mod Gate
pub mod Routes
pub mod Bodies
pub mod Tokens
pub mod Letting
pub mod Admitting
pub mod Paths
pub mod Reading
mod Tests

-- ===== src/Handler.antt =====
-- The state that the request handler shares between requests (internal/handler).
pub mod Sharded
pub mod Dedup
pub mod Sessions
pub mod Stream
pub mod Retry
pub mod Selection
pub mod Frame

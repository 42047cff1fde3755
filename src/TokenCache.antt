-- ===== src/TokenCache.antt =====
-- The token cache (internal/tokencache).
pub mod Memory
pub mod Prompt

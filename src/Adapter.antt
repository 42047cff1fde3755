-- ===== src/Adapter.antt =====
-- The other formats of a streamed response (internal/adapter).
pub mod OpenAi

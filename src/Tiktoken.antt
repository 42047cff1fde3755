-- ===== src/Tiktoken.antt =====
-- The estimate of token counts (internal/tiktoken).
pub mod Estimator

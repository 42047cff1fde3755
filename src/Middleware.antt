-- ===== src/Middleware.antt =====
-- The middleware of the server (internal/middleware) and the sessions it asks for (internal/auth).
pub mod Concurrency
pub mod RateLimit
pub mod Session

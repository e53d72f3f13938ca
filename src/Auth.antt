-- ===== src/Auth.antt =====
-- Signing in, internal/auth.
pub mod LoginLimiter
pub mod AccountLimiter

-- ===== src/Limits.antt =====
-- control-plane/internal/limits/limits.go: the token bucket, the per-key rate limiter and the build
-- gate.
pub mod Bucket
pub mod Retry
pub mod Limiter
pub mod Gate
pub mod Tests

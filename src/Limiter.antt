-- ===== src/Limiter.antt =====
-- The rate limiter of `src/adapters/identity/verify-rate-limit.ts`.
pub mod Buckets
pub mod Windows
mod Examples

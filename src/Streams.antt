-- ===== src/Streams.antt =====
-- The caps on live streams of `src/api/stream-caps.ts`.
pub mod Caps
pub mod Counted
pub mod Released
pub mod Places
mod Examples

-- ===== src/Evidence.antt =====
-- What the record of an agent shows at read time: `src/domain/liveness.ts`, `freshness.ts`,
-- `evidence.ts` and `compromise.ts`, with the keys of `agent.ts`.
pub mod Moment
pub mod Keys
pub mod Names
pub mod Compromise
pub mod Disputes
pub mod Liveness
pub mod Activity
pub mod Freshness
pub mod Tier
mod Examples

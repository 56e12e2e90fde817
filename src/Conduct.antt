-- ===== src/Conduct.antt =====
-- The conduct records of `src/domain/buyer-conduct.ts`.
pub mod Buyer
pub mod Operator
pub mod Counts
pub mod Outcomes
pub mod Thresholds
pub mod History
pub mod Chairs
mod Examples

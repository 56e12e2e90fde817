-- ===== src/Job/Invariant.antt =====
-- What holds of every job that the operations of `src/domain/job.ts` can make, a child for each
-- part, and the parts together.
pub mod Agreed
pub mod Redo
pub mod Outcome

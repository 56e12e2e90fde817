-- ===== src/Job.antt =====
-- The hire loop of `src/domain/job.ts`: statuses and the transition table (Status), the job's
-- record and what its operations throw (Model), the digest of `src/domain/hashing.ts` (Hashing),
-- the operations up to confirm (Agreement), those after it (Lifecycle) and the clocks (Clocks).
-- The other modules prove things about these.
pub mod Status
pub mod Model
pub mod Hashing
pub mod Agreement
pub mod Lines
pub mod Price
pub mod Exchange
pub mod Lifecycle
pub mod Clocks
pub mod Edges
pub mod Event
pub mod Step
pub mod Guards
pub mod Perform
pub mod Lapses
pub mod Invariant
pub mod Runs
pub mod Consent
pub mod Final
pub mod Terms
pub mod Confirm
pub mod Revision
pub mod Acceptance
pub mod Deadlines
pub mod Unpaid
pub mod Digest
pub mod Settlement
pub mod Tests
mod Examples

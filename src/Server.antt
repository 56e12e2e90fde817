-- ===== src/Server.antt =====
-- The handlers of the hire loop in `src/api/app.ts`, on the state that they write and the ports
-- that they ask.
pub mod Ports
pub mod Route
pub mod Post
pub mod Parties
pub mod Holds
pub mod Notices
pub mod Links
pub mod Observe
pub mod Clocks
pub mod Exchange
pub mod Ancestry
pub mod Terms
pub mod Confirm
pub mod Work
pub mod Submit
pub mod Merge
pub mod Reads
pub mod Rows
pub mod Requests
pub mod Ends
pub mod Refused
mod Examples

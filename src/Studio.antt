-- ===== src/Studio.antt =====
-- src/ws/session.rs: the session with the studio, and the jobs that it offers.
pub mod Frames
pub mod Worker
pub mod Offers
pub mod Tasks
pub mod Steps
pub mod Gate
pub mod Jobs
pub mod Listed
mod Answers
pub mod Promises
mod Settling
mod History
pub mod Connection
pub mod Rounds
mod Reconnects
mod GivingUp
mod Backoff
mod Tests

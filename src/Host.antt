-- ===== src/Host.antt =====
-- src/host.rs: the model host, which drives every model's lifecycle under one lock.
pub mod State
pub mod Requests
pub mod Threads
pub mod Lanes
pub mod View
pub mod Effects
pub mod Keeps
pub mod Steps
pub mod Invariant
pub mod Groups
pub mod Exclusive
pub mod Loads
mod Tests

-- ===== src/Download.antt =====
-- How a model file gets onto the disk (src/engine/download.rs, and the gate of src/net.rs).
pub mod Names
pub mod Fetch
pub mod Cache
pub mod Safety
pub mod Resume
pub mod Ending
pub mod Holding
pub mod Ensuring
pub mod Naming
pub mod Pictures
mod Tests
pub mod Inputs

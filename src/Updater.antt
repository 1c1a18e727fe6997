-- ===== src/Updater.antt =====
-- src/update.rs, src/self_install.rs and the auto-update tick of src/runtime.rs: the worker replaces
-- its own binary.
pub mod Checksum
pub mod Releases
pub mod Install
pub mod Drain
mod Choice
pub mod Replacing
pub mod Applying
mod Safety
mod Integrity
mod Slot
mod Tests

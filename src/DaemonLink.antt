-- ===== src/DaemonLink.antt =====
-- The tray UI's link to its daemon (src/daemon_link.rs).
pub mod Replica
pub mod Poller
mod Mirroring
mod Thumbnails
mod Shown
mod Showing
mod Starting
mod Tests

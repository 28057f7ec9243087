-- ===== src/Daemon.antt =====
-- The main loop (daemon/daemon-main.c): what clients send, and the events of devices.
pub mod Input
pub mod Lines
pub mod Ready
pub mod Events
pub mod Counted
pub mod Recounted
pub mod Reach
pub mod Mirror

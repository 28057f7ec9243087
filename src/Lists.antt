-- ===== src/Lists.antt =====
-- daemon/lists.c: the daemon's media tree and its clients. Linux build.
pub mod Device
pub mod Construct
pub mod Constructed
pub mod Update
pub mod Change
pub mod Added
pub mod Removed
pub mod Changed

-- ===== src/Mounts.antt =====
-- The mount table of the system (daemon/mnt_funcs.c), and what the tree takes from it.
pub mod Table
pub mod Nodes
pub mod Phases
pub mod Consistent
pub mod Entered
pub mod Synced
pub mod Settled
pub mod Reflected
pub mod Devices
pub mod Mtab
pub mod Restored

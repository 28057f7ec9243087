-- ===== src/Config.antt =====
-- The configuration (daemon/config_file.c): its settings and the arrays of mount options.
pub mod MountOpts
pub mod Lookup
pub mod Values
pub mod Accepted
pub mod Scan
pub mod Printed
pub mod Read

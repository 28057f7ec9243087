-- ===== src/Options.antt =====
-- Mount options (daemon/filesystem_opts.c): what each file system allows, the list that an
-- options string is converted to, and the strings and flags made of that list.
pub mod Types
pub mod Validate
pub mod Tables
pub mod Mounting
pub mod Convert
pub mod Generate
mod Flags
mod TakeOut
pub mod Distinct
pub mod Proper
mod Mandatory
pub mod Forced
pub mod Restricted
pub mod Accepted
pub mod Writes
pub mod Strings

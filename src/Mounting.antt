-- ===== src/Mounting.antt =====
-- Mounting and unmounting on a client's request (daemon/filesystem_mnt.c), in the Linux build.
pub mod System
pub mod Path
pub mod Command
pub mod Invoke
pub mod Unmount
pub mod Lengths
pub mod Written
pub mod Answers
pub mod Picks
pub mod Answered
pub mod Free
pub mod Permitted
pub mod Inside
pub mod Unmounting
pub mod Sweep

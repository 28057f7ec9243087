-- ===== src/Commands.antt =====
-- The commands of clients (daemon/actions.c) and the lines that answer them.
pub mod Message
pub mod Wire
pub mod Listing
pub mod Invoke
pub mod Notify
pub mod Broadcast
pub mod Printed
pub mod Answered
pub mod Supported
pub mod Listed
pub mod Tabulated

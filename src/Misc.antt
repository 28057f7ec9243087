-- ===== src/Misc.antt =====
-- dtmd.h.in and library/dtmd-misc.c: the enumerations of the protocol and their names.
pub mod Types
pub mod Names
pub mod RoundTrip

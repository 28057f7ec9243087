-- ===== src/Media.antt =====
-- The tree of removable media: `struct dtmd_removable_media` of dtmd.h.in with the private data of
-- daemon/lists.h, and `dtmd_find_media` of library/dtmd-misc.c. Linux build.
pub mod Tree
pub mod Entries
pub mod Order
pub mod Find

-- ===== src/Clients.antt =====
-- The client part of daemon/lists.c: the list from `client_root` with `clients_count`.
pub mod Store
pub mod Invariant

-- ===== src/Tests.antt =====
-- Runs of the modelled functions, and the theorems at concrete inputs.
mod Labels
mod Tree
mod Connections
mod Mounts
mod Answers
mod Settings
mod Table
mod Loop
mod Requests
mod Listings
mod Mtab

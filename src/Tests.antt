-- ===== src/Tests.antt =====
-- The theorems at concrete inputs, over a small world.
pub mod World
pub mod Documents
pub mod Utils
pub mod Bridge
pub mod Interface
pub mod Lldp
pub mod Hardware
pub mod Session
pub mod Main
pub mod Threads
pub mod Providers

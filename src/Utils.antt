-- ===== src/Utils.antt =====
-- utils.c: MAC addresses in IEEE form, netmask prefixes, the age of a neighbour, timestamps.
pub mod Mac
pub mod Netmask
pub mod Age
pub mod Clock

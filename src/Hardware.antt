-- ===== src/Hardware.antt =====
-- hardware.c: the versions of the board and of the system, the chassis's id, and how the three
-- are written to sysrepo.
pub mod Texts
pub mod Versions
pub mod Save

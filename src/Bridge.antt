-- ===== src/Bridge.antt =====
-- bridge.c and bridge.h: the bridges of the machine and their VLANs.
pub mod Vlan
pub mod Collect
pub mod Save
pub mod Publish

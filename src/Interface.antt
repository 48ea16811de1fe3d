-- ===== src/Interface.antt =====
-- interface.c and interface.h: the interfaces of the machine, their addresses and their counters.
pub mod Speed
pub mod Collect
pub mod Ips
pub mod Save
pub mod Names
pub mod Providers
pub mod Destroy
use tsn.Base.{ℕ, Bool, CStr, Option, List, ℤ}

-- `struct interface`.
pub record Interface : Type 0 where
  pub name : CStr
  pub index : ℕ
  pub hw_addr : CStr
  pub flags : ℕ
  pub kind : Option CStr
  pub speed : ℕ
  pub vlan_id : ℕ
  pub pvid : ℕ
  pub master_name : Option CStr

-- `struct address`; `prefix` is what `netmask_prefix` counted.
pub record Address : Type 0 where
  pub is_ipv4 : Bool
  pub addr : CStr
  pub netmask : CStr
  pub prefix : ℕ

-- `struct ip`.
pub record Ip : Type 0 where
  pub name : CStr
  pub is_up : Bool
  pub mtu : ℤ
  pub addresses : List Address

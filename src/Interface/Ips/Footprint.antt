-- ===== src/Interface/Ips/Footprint.antt =====
-- interface.c, collect_ips: the calls that it makes.
use tsn.Base.{ℕ, CStr, Bool, true, false, Option, none, some, ℤ}
use tsn.Runtime.{
  Trace, Env, M, Call, IfAddr, Family, af_inet, af_inet6, af_other, pure, getifaddrs, freeifaddrs,
  socket, close, siocgifmtu, siocgifflags,
}
use tsn.Runtime.Containers.{Containers}
use tsn.Runtime.Always.{IsOrder, Always, Steps, Always-option, always_rules}
use tsn.Interface.Collect.{Interfaces}
use tsn.Interface.Ips.{
  Ips, get_interface_mtu_and_flags, new_ip, find_ip, add_entry, ip_round, collect_ips,
}

-- The calls that ask for all addresses.
abbrev pub asks_addresses : Call → Bool
asks_addresses getifaddrs = true
asks_addresses freeifaddrs = true
asks_addresses _ = false

-- The calls that ask for the MTU and the flags.
abbrev pub asks_mtu : Call → Bool
asks_mtu socket = true
asks_mtu close = true
asks_mtu (siocgifmtu name) = true
asks_mtu (siocgifflags name) = true
asks_mtu _ = false

-- That `get_interface_mtu_and_flags` keeps a relation.
abbrev pub AsksMtu : Env → (Trace → Trace → Type 0) → Type 0
AsksMtu env R =
    (name : CStr) (mtu : ℤ) (flags : ℕ) → Always R (get_interface_mtu_and_flags env name mtu flags)

pub get_interface_mtu_and_flags-Always :
    (env : Env) {R : Trace → Trace → Type 0} (order : IsOrder R) (asks : Steps R asks_mtu)
    → AsksMtu env R
unfolding get_interface_mtu_and_flags
get_interface_mtu_and_flags-Always env order asks name mtu flags =
    search (always_rules, asks) depth 16

module _ (env : Env) (lib : Containers) {R : Trace → Trace → Type 0} (order : IsOrder R)
    (asks : Steps R asks_addresses) (mtu_of : AsksMtu env R) where
  new_ip-Always : (ips : Ips) (name : CStr) → Always R (new_ip env lib ips name)
  unfolding new_ip
  new_ip-Always ips name = search (always_rules, mtu_of)

  find_ip-Always : (ips : Ips) (name : CStr) → Always R (find_ip env lib ips name)
  unfolding find_ip
  find_ip-Always ips name =
      Always-option (lib.shash_find_data ℕ ips.names name) (new_ip env lib ips name)
        (λ p. pure (ips, p)) (new_ip-Always ips name) (λ p. search always_rules)

  add_entry-Always :
      (ips : Ips) (addr : IfAddr) (is_ipv4 : Bool) (printed : CStr)
      → Always R (add_entry env lib ips addr is_ipv4 printed)
  unfolding add_entry
  add_entry-Always ips addr is_ipv4 printed = search (always_rules, find_ip-Always)

  ip_round-Always :
      (interfaces : Interfaces) (ips : Ips) (addr : IfAddr)
      → Always R (ip_round env lib interfaces ips addr)
  unfolding ip_round
  ip_round-Always interfaces ips addr =
      Always-option (lib.shash_find_data _ interfaces addr.ifa_name) (pure ips) _
        (search always_rules) (λ _. go addr.ifa_addr)
    where
      go :
          (a : Option (Family × CStr))
          → Always R (elim a as (λ _. M Ips) [
            | none ↦ pure ips
            | some (af_inet, printed) ↦ add_entry env lib ips addr true printed
            | some (af_inet6, printed) ↦ add_entry env lib ips addr false printed
            | some (af_other, printed) ↦ pure ips
          ])
      go none = search always_rules
      go (some (af_inet, printed)) = add_entry-Always ips addr true printed
      go (some (af_inet6, printed)) = add_entry-Always ips addr false printed
      go (some (af_other, printed)) = search always_rules

  pub collect_ips-Always :
      (interfaces : Interfaces) (ips : Ips) → Always R (collect_ips env lib interfaces ips)
  unfolding collect_ips
  collect_ips-Always interfaces ips = search (always_rules, asks, ip_round-Always) depth 12

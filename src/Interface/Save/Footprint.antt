-- ===== src/Interface/Save/Footprint.antt =====
-- interface.c, update_ips and update_interfaces_speed: the calls that they make.
use tsn.Base.{CStr, Bool, true, false, Option, none, some}
use tsn.Runtime.{
  Trace, Env, Call, IfAddr, pure, sr_set_item, sr_apply_changes, sr_discard_changes,
  sr_session_switch_ds,
}
use tsn.Runtime.Containers.{Containers}
use tsn.Runtime.Always.{IsOrder, Always, Steps, Always-option, always_rules}
use tsn.Interface.{Interface, Ip, Address}
use tsn.Interface.Collect.{Interfaces}
use tsn.Interface.Ips.{Ips}
use tsn.Interface.Ips.Footprint.{asks_addresses, AsksMtu, collect_ips-Always}
use tsn.Interface.Speed.Footprint.{AsksSpeed}
use tsn.Interface.Save.{
  apply_or_discard, save_interface_running, save_interface_operational, save_address, save_ip,
  save_ips, ip_destory, update_ips, set_speed, speed_round, update_interfaces_speed,
}

-- The calls that write items to sysrepo.
abbrev pub writes_items : Call → Bool
writes_items (sr_set_item path val) = true
writes_items sr_apply_changes = true
writes_items sr_discard_changes = true
writes_items (sr_session_switch_ds ds) = true
writes_items _ = false

pub apply_or_discard-Always :
    (env : Env) {R : Trace → Trace → Type 0} (order : IsOrder R) (writes : Steps R writes_items)
    → Always R (apply_or_discard env)
unfolding apply_or_discard
apply_or_discard-Always env order writes = search (always_rules, writes) depth 12

module _ (env : Env) {R : Trace → Trace → Type 0} (order : IsOrder R)
    (writes : Steps R writes_items) (intf : Interface) where
  pub save_interface_running-Always : Always R (save_interface_running env intf)
  unfolding save_interface_running
  save_interface_running-Always = search (always_rules, writes, apply_or_discard-Always)

  pub save_interface_operational-Always : Always R (save_interface_operational env intf)
  unfolding save_interface_operational
  save_interface_operational-Always =
      search (always_rules, writes, apply_or_discard-Always) depth 12

module _ (env : Env) (lib : Containers) {R : Trace → Trace → Type 0} (order : IsOrder R)
    (asks : Steps R asks_addresses) (mtu_of : AsksMtu env R) (speed_of : AsksSpeed env R)
    (writes : Steps R writes_items) where
  save_address-Always : (name : CStr) (a : Address) → Always R (save_address name a)
  unfolding save_address
  save_address-Always name a = search (always_rules, writes)

  save_ip-Always : (ip : Ip) → Always R (save_ip ip)
  unfolding save_ip
  save_ip-Always ip = search (always_rules, writes, save_address-Always)

  save_ips-Always : (ips : Ips) → Always R (save_ips ips)
  unfolding save_ips
  save_ips-Always ips = search (always_rules, save_ip-Always)

  ip_destory-Always : (ip : Option Ip) → Always R (ip_destory ip)
  unfolding ip_destory
  ip_destory-Always none = search always_rules
  ip_destory-Always (some ip) = search always_rules

  pub update_ips-Always : (interfaces : Interfaces) → Always R (update_ips env lib interfaces)
  unfolding update_ips
  update_ips-Always interfaces =
      search (always_rules, asks, mtu_of, collect_ips-Always, save_ips-Always, ip_destory-Always)
        depth 12

  set_speed-Always : (name : CStr) → Always R (set_speed env name)
  unfolding set_speed
  set_speed-Always name = search (always_rules, speed_of, writes, apply_or_discard-Always) depth 12

  speed_round-Always :
      (interfaces : Interfaces) (addr : IfAddr) → Always R (speed_round env lib interfaces addr)
  unfolding speed_round
  speed_round-Always interfaces addr =
      Always-option (lib.shash_find_data _ interfaces addr.ifa_name) (pure tt)
        (λ _. set_speed env addr.ifa_name) (search always_rules)
        (λ _. set_speed-Always addr.ifa_name)

  pub update_interfaces_speed-Always :
      (interfaces : Interfaces) → Always R (update_interfaces_speed env lib interfaces)
  unfolding update_interfaces_speed
  update_interfaces_speed-Always interfaces =
      search (always_rules, asks, writes, speed_round-Always) depth 16

-- ===== src/Interface/Save.antt =====
-- interface.c, save_ips, save_interface_running, save_interface_operational, update_ips and
-- update_interfaces_speed: what is written to sysrepo.
pub mod Laws
pub mod Footprint
pub mod Items
pub mod Speeds
pub mod Addresses
pub mod Transactions
pub mod Refresh
pub mod Update
use tsn.Base.{
  ℕ, ◌*◌, Bool, true, false, Option, none, some, List, [], ◌∷◌, ◌++◌, CStr, String, text, ℤ, wrap,
  u16_mod, zero, suc, if◌then◌else◌,
}
use tsn.Runtime.{
  M, Env, Trace, call, run, peek, pure, crash, deref, ◌>>=◌, ◌>>◌, for_each, fold_each, IfAddr, Val,
  u8, u16, u64, i32, str, identityref, enumeration, Datastore, operational, sr_set_item,
  sr_apply_changes, sr_discard_changes, sr_session_switch_ds, getifaddrs, freeifaddrs,
}
use tsn.Runtime.Containers.{Containers}
use tsn.Interface.{Interface, Ip, Address}
use tsn.Interface.Collect.{Interfaces}
use tsn.Interface.Speed.{get_interface_speed, speed_bps}
use tsn.Interface.Ips.{Ips, fetch, collect_ips}

-- `/ietf-interfaces:interfaces/interface[name='%s']/` and a leaf.
unfoldable pub interface_path : CStr → String → CStr
interface_path name leaf =
    text "/ietf-interfaces:interfaces/interface[name='" ++ (name ++ (text "']/" ++ text leaf))

unfoldable pub address_path : CStr → Address → CStr
address_path name a =
    text "/ietf-interfaces:interfaces/interface[name='"
    ++ (name
        ++ ((if a.is_ipv4
              then text "']/ietf-ip:ipv4/address[ip='"
              else text "']/ietf-ip:ipv6/address[ip='")
            ++ (a.addr ++ text "']/prefix-length")))

-- `rc = sr_apply_changes (session, 0); if (rc != SR_ERR_OK) … sr_discard_changes (session);`
unfoldable pub apply_or_discard : Env → M (Unit {0})
apply_or_discard env = do
  applied ← call env sr_apply_changes
  if applied then pure tt else run sr_discard_changes

-- The body of the loop over the addresses of an interface. A failure to apply is only logged.
save_address : CStr → Address → M (Unit {0})
save_address name a = do run (sr_set_item (address_path name a) (u8 a.prefix)); run sr_apply_changes

save_ip : Ip → M (Unit {0})
save_ip ip = do
  run (sr_set_item (interface_path ip.name "ietf-ip:ipv4/mtu") (u16 (wrap u16_mod ip.mtu)))
  for_each ip.addresses (save_address ip.name)

unfoldable pub save_ips : Ips → M (Unit {0})
unfolding save_ip save_address fetch
save_ips ips = for_each ips.names λ (name, p). deref (fetch ips.store p) >>= save_ip

unfoldable pub save_interface_running : Env → Interface → M (Unit {0})
unfolding apply_or_discard
save_interface_running env intf = do
  run (
      sr_set_item (interface_path intf.name "type")
        (identityref (text "iana-if-type:ethernetCsmacd")))
  apply_or_discard env

unfoldable pub save_interface_operational : Env → Interface → M (Unit {0})
unfolding apply_or_discard
save_interface_operational env intf = do
  run (sr_set_item (interface_path intf.name "admin-status") (enumeration (text "up")))
  run (sr_set_item (interface_path intf.name "phys-address") (str (some intf.hw_addr)))
  run (sr_set_item (interface_path intf.name "if-index") (i32 intf.index))
  run (sr_set_item (interface_path intf.name "speed") (u64 intf.speed))
  apply_or_discard env

-- It returns at once for every pointer but NULL, and follows that one.
ip_destory : Option Ip → M (Unit {0})
ip_destory (some ip) = pure tt
ip_destory none = crash

unfoldable pub update_ips : Env → Containers → Interfaces → M (Unit {0})
unfolding ip_destory fetch
update_ips env lib interfaces = do
  (ips, got) ← collect_ips env lib interfaces (record { store = []; names = [] })
  save_ips ips
  for_each ips.names λ (name, p). ip_destory (fetch ips.store p)

-- The speed of an interface, as the kernel gives it now.
set_speed : Env → CStr → M (Unit {0})
set_speed env name = do
  speed ← get_interface_speed env name
  run (sr_set_item (interface_path name "speed") (u64 (speed_bps speed)))
  apply_or_discard env

module _ (env : Env) (lib : Containers) where
  speed_round : Interfaces → IfAddr → M (Unit {0})
  speed_round interfaces addr = elim (lib.shash_find_data _ interfaces addr.ifa_name) [
    | none ↦ pure tt
    | some _ ↦ set_speed env addr.ifa_name
  ]

  unfoldable pub update_interfaces_speed : Interfaces → M (Unit {0})
  unfolding speed_round set_speed apply_or_discard
  update_interfaces_speed interfaces = do
    got ← call env getifaddrs
    addrs ← peek env.ifaddrs
    if got
        then (do
          ds ← peek env.get_ds
          run (sr_session_switch_ds operational)
          for_each addrs (speed_round interfaces)
          run freeifaddrs
          run (sr_session_switch_ds ds))
        else pure tt

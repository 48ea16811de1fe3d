-- ===== src/Interface/Collect.antt =====
-- interface.c, collect_interfaces.
pub mod Laws
pub mod Content
pub mod Footprint
use tsn.Base.{ℕ, Option, none, some, ◌==◌, List, [], CStr, take, if◌then◌else◌}
use tsn.Runtime.{
  M, Env, run, peek, pure, deref, ◌>>=◌, ◌>>◌, fold_each, Link, if_nameindex, rtnl_link_get_by_name,
  rtnl_link_get, rtnl_link_put,
}
use tsn.Runtime.Containers.{Containers}
use tsn.Runtime.Netlink.{with_link_cache, named, is_switch_port}
use tsn.Interface.{Interface}
use tsn.Interface.Speed.{get_interface_speed, speed_bps}

abbrev pub Interfaces : Type 0
Interfaces = List (CStr × Interface)

-- ARPHRD_LOOPBACK.
abbrev pub loopback : ℕ
loopback = 772

-- `interface_create`, with `name` set by the statement after it: all else is 0 or NULL.
interface_create : CStr → Interface
interface_create name = record {
  name = name;
  index = 0;
  hw_addr = [];
  flags = 0;
  kind = none;
  speed = 0;
  vlan_id = 0;
  pvid = 0;
  master_name = none;
}

module _ (env : Env) where
  -- The name of the master link, which the code reads with no test of the link.
  get_master_name : ℕ → M (Option CStr)
  get_master_name master = if master == 0 then pure none else (do
    run (rtnl_link_get master)
    found ← peek (λ t. env.link_get t master)
    tmp ← deref found
    run rtnl_link_put
    pure (some tmp.name))

  -- The fields of a `struct interface`, from the link. `nl_addr2str` writes 22 bytes at most.
  make_interface : CStr → Link → M Interface
  make_interface name link = do
    speed ← get_interface_speed env name
    master_name ← get_master_name link.master
    let intf = interface_create name
    pure (record intf {
      index = link.ifindex;
      hw_addr = take 22 link.addr;
      flags = link.flags;
      kind = link.kind;
      speed = speed_bps speed;
      master_name = master_name;
      vlan_id = if link.is_vlan then link.vlan_id else intf.vlan_id;
      pvid = if link.is_bridge then link.bridge_pvid else intf.pvid;
    })

module _ (env : Env) (lib : Containers) where
  -- What the loop does with the link of a name; then the link is put back.
  add_link : Interfaces → CStr → Option Link → M Interfaces
  add_link interfaces name none = do run rtnl_link_put; pure interfaces
  add_link interfaces name (some link) =
      if link.arptype == loopback then (do run rtnl_link_put; pure interfaces) else (do
        intf ← make_interface env name link
        run rtnl_link_put
        pure (lib.shash_add Interface interfaces name intf))

  collect_round : Interfaces → ℕ × CStr → M Interfaces
  collect_round interfaces (index, name) =
      if is_switch_port name
      then (do
        run (rtnl_link_get_by_name name)
        link ← peek (λ t. env.link_get_by_name t name)
        add_link interfaces name link)
      else pure interfaces

  unfoldable pub collect_interfaces : Interfaces → M Interfaces
  unfolding collect_round add_link make_interface interface_create get_master_name
  collect_interfaces interfaces = do
    run if_nameindex
    if_ni ← peek env.if_nameindex
    with_link_cache env (pure interfaces) (pure interfaces)
        (fold_each (named if_ni) interfaces collect_round) (pure tt)

-- ===== src/Bridge/Collect.antt =====
-- bridge.c, get_bridge_vlan around the command that it runs, and collect_bridges.
pub mod Laws
pub mod Leaks
pub mod Footprint
pub mod Content
use tsn.Base.{ℕ, Option, none, some, List, ◌++◌, CStr, text, take, if◌then◌else◌}
use tsn.Runtime.{
  M, Env, call, run, peek, pure, deref, ◌>>=◌, ◌>>◌, fold_each, Link, popen, pclose, if_nameindex,
  rtnl_link_get_by_name, rtnl_link_put,
}
use tsn.Runtime.Containers.{Containers}
use tsn.Runtime.Netlink.{with_link_cache, named}
use tsn.Runtime.Streams.{read_all}
use tsn.Bridge.Vlan.{CJson, BrVlan, zero_vlan, parse_vlans}

-- `bridge_t`; nothing sets `types`.
pub record Bridge : Type 0 where
  pub name : CStr
  pub index : ℕ
  pub hw_addr : CStr
  pub vlan : BrVlan

abbrev pub Bridges : Type 0
Bridges = List (CStr × Bridge)

abbrev pub buffer_length : ℕ
buffer_length = 1024

abbrev pub name_len : ℕ
name_len = 32

abbrev pub command : CStr → CStr
command br_name = text "bridge -j vlan show dev " ++ br_name

module _ (env : Env) (lib : Containers) (cjson : CJson) where
  -- With the command running. The loop that reads its output always has fuel enough.
  read_vlans : CStr → M BrVlan
  read_vlans br_name = do
    bytes ← peek env.contents
    output ← deref (read_all lib buffer_length bytes)
    run pclose
    pure (parse_vlans cjson br_name output)

  -- `*vlan` after the call; it is cleared first.
  unfoldable pub get_bridge_vlan : CStr → M BrVlan
  unfolding read_vlans
  get_bridge_vlan br_name = do
    opened ← call env (popen (command br_name))
    if opened then read_vlans br_name else pure zero_vlan

  -- `strncpy` copies 32 bytes at most, and `nl_addr2str` writes 22.
  add_bridge : Bridges → ℕ → CStr → Link → M Bridges
  add_bridge bridges index name link = do
    vlan ← get_bridge_vlan (take name_len name)
    pure (
        lib.shash_add Bridge bridges name (record {
          name = take name_len name;
          index = index;
          hw_addr = take 22 link.addr;
          vlan = vlan;
        }))

  add_if_bridge : Bridges → ℕ → CStr → Option Link → M Bridges
  add_if_bridge bridges index name none = pure bridges
  add_if_bridge bridges index name (some link) =
      if link.is_bridge then add_bridge bridges index name link else pure bridges

  bridge_round : Bridges → ℕ × CStr → M Bridges
  bridge_round bridges (index, name) = do
    run (rtnl_link_get_by_name name)
    link ← peek (λ t. env.link_get_by_name t name)
    after ← add_if_bridge bridges index name link
    run rtnl_link_put
    pure after

  unfoldable pub collect_bridges : Bridges → M Bridges
  unfolding bridge_round add_if_bridge add_bridge
  collect_bridges bridges = do
    run if_nameindex
    if_ni ← peek env.if_nameindex
    with_link_cache env (pure bridges) (pure bridges) (fold_each (named if_ni) bridges bridge_round)
        (pure tt)

-- ===== src/Bridge/Collect/Footprint.antt =====
-- bridge.c, collect_bridges: the calls that it makes.
use tsn.Base.{ℕ, CStr, Bool, true, false, Option, none, some}
use tsn.Runtime.{Trace, Env, Call, Link, if_nameindex, rtnl_link_get_by_name, rtnl_link_put}
use tsn.Runtime.Containers.{Containers}
use tsn.Runtime.Always.{IsOrder, Always, Steps, always_rules}
use tsn.Runtime.Netlink.Footprint.{is_frame, with_link_cache-Always}
use tsn.Bridge.Vlan.{CJson}
use tsn.Bridge.Collect.{
  Bridges, get_bridge_vlan, add_bridge, add_if_bridge, bridge_round, collect_bridges,
}

-- The calls of the loop over the links, but for the bridge command.
abbrev pub asks_bridges : Call → Bool
asks_bridges if_nameindex = true
asks_bridges (rtnl_link_get_by_name name) = true
asks_bridges rtnl_link_put = true
asks_bridges _ = false

-- That `get_bridge_vlan` keeps a relation.
abbrev pub AsksVlans : Env → Containers → CJson → (Trace → Trace → Type 0) → Type 0
AsksVlans env lib cjson R = (br_name : CStr) → Always R (get_bridge_vlan env lib cjson br_name)

module _ (env : Env) (lib : Containers) (cjson : CJson) {R : Trace → Trace → Type 0}
    (order : IsOrder R) (frame : Steps R is_frame) (asks : Steps R asks_bridges)
    (vlans : AsksVlans env lib cjson R) where
  add_bridge-Always :
      (bridges : Bridges) (index : ℕ) (name : CStr) (link : Link)
      → Always R (add_bridge env lib cjson bridges index name link)
  unfolding add_bridge
  add_bridge-Always bridges index name link = search (always_rules, vlans)

  add_if_bridge-Always :
      (bridges : Bridges) (index : ℕ) (name : CStr) (link : Option Link)
      → Always R (add_if_bridge env lib cjson bridges index name link)
  unfolding add_if_bridge
  add_if_bridge-Always bridges index name none = search always_rules
  add_if_bridge-Always bridges index name (some link) = search (always_rules, add_bridge-Always)

  bridge_round-Always :
      (bridges : Bridges) (entry : ℕ × CStr) → Always R (bridge_round env lib cjson bridges entry)
  unfolding bridge_round
  bridge_round-Always bridges (index, name) =
      search (always_rules, asks, add_if_bridge-Always) depth 12

  pub collect_bridges-Always :
      (bridges : Bridges) → Always R (collect_bridges env lib cjson bridges)
  unfolding collect_bridges
  collect_bridges-Always bridges =
      search (always_rules, asks, frame, with_link_cache-Always, bridge_round-Always) depth 12

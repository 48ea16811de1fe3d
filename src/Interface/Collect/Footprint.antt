-- ===== src/Interface/Collect/Footprint.antt =====
-- interface.c, collect_interfaces: the calls that it makes.
use tsn.Base.{ℕ, CStr, Bool, true, false, Option, none, some}
use tsn.Runtime.{
  Trace, Env, Call, Link, if_nameindex, rtnl_link_get_by_name, rtnl_link_get, rtnl_link_put,
}
use tsn.Runtime.Containers.{Containers}
use tsn.Runtime.Always.{IsOrder, Always, Steps, always_rules}
use tsn.Runtime.Netlink.Footprint.{is_frame, with_link_cache-Always}
use tsn.Interface.Speed.Footprint.{AsksSpeed}
use tsn.Interface.Collect.{
  Interfaces, get_master_name, make_interface, add_link, collect_round, collect_interfaces,
}

-- The calls of the loop over the links.
abbrev pub collects : Call → Bool
collects if_nameindex = true
collects (rtnl_link_get_by_name name) = true
collects (rtnl_link_get index) = true
collects rtnl_link_put = true
collects _ = false

module _ (env : Env) (lib : Containers) {R : Trace → Trace → Type 0} (order : IsOrder R)
    (frame : Steps R is_frame) (asks : Steps R collects) (speed_of : AsksSpeed env R) where
  get_master_name-Always : (master : ℕ) → Always R (get_master_name env master)
  unfolding get_master_name
  get_master_name-Always master = search (always_rules, asks) depth 12

  make_interface-Always : (name : CStr) (link : Link) → Always R (make_interface env name link)
  unfolding make_interface
  make_interface-Always name link = search (always_rules, speed_of, get_master_name-Always) depth 12

  add_link-Always :
      (interfaces : Interfaces) (name : CStr) (link : Option Link)
      → Always R (add_link env lib interfaces name link)
  unfolding add_link
  add_link-Always interfaces name none = search (always_rules, asks)
  add_link-Always interfaces name (some link) =
      search (always_rules, asks, make_interface-Always) depth 12

  collect_round-Always :
      (interfaces : Interfaces) (entry : ℕ × CStr)
      → Always R (collect_round env lib interfaces entry)
  unfolding collect_round
  collect_round-Always interfaces (index, name) =
      search (always_rules, asks, add_link-Always) depth 12

  pub collect_interfaces-Always :
      (interfaces : Interfaces) → Always R (collect_interfaces env lib interfaces)
  unfolding collect_interfaces
  collect_interfaces-Always interfaces =
      search (always_rules, asks, frame, with_link_cache-Always, collect_round-Always) depth 12

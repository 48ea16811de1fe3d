-- ===== src/Interface/Names/Footprint.antt =====
-- interface.c, get_interface_names: the calls that it makes.
use tsn.Base.{ℕ, List, CStr, Bool, true, false, refl, none, some, ◌||◌}
use tsn.Runtime.{Trace, Env, Call, if_nameindex, rtnl_link_get_by_name, rtnl_link_put}
use tsn.Runtime.Containers.{Containers}
use tsn.Runtime.Always.{IsOrder, Always, Steps, always_rules}
use tsn.Runtime.Netlink.Footprint.{is_frame, with_link_cache-Always}
use tsn.Interface.Names.{Names, get_interface_names, list_names, name_round}

-- The calls of the loop over the names.
abbrev names_links : Call → Bool
names_links if_nameindex = true
names_links (rtnl_link_get_by_name name) = true
names_links rtnl_link_put = true
names_links _ = false

abbrev pub reads_links : Call → Bool
reads_links c = is_frame c || names_links c

module _ (env : Env) (lib : Containers) {R : Trace → Trace → Type 0} (order : IsOrder R)
    (reads : Steps R reads_links) where
  frame : Steps R is_frame
  frame c h = reads c (rw h refl)

  name_round-Always :
      (names : List CStr) (entry : ℕ × CStr) → Always R (name_round env lib names entry)
  unfolding name_round
  name_round-Always names (index, name) = search (always_rules, reads) depth 12

  list_names-Always : Always R (list_names env lib)
  unfolding list_names
  list_names-Always = search (always_rules, reads, name_round-Always) depth 12

  pub get_interface_names-Always : (names : Names) → Always R (get_interface_names env lib names)
  unfolding get_interface_names
  get_interface_names-Always none =
      search (always_rules, with_link_cache-Always, frame, list_names-Always) depth 12
  get_interface_names-Always (some names) = search always_rules

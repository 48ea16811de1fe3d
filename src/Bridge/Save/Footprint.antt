-- ===== src/Bridge/Save/Footprint.antt =====
-- bridge.c, save_bridges: the calls that it makes.
use tsn.Base.{ℕ, List, [], ◌∷◌, CStr, ◌==◌}
use tsn.Runtime.{Trace, Env, sr_delete_item, pure, ◌>>◌}
use tsn.Runtime.Always.{IsOrder, Always, Always-if, Always-bind, Steps, always_rules}
use tsn.Interface.Save.Footprint.{writes_items, apply_or_discard-Always}
use tsn.Bridge.Collect.{Bridge, Bridges}
use tsn.Bridge.Save.{save_vlan, vlans_loop, save_bridge, save_bridges}

module _ (env : Env) {R : Trace → Trace → Type 0} (order : IsOrder R)
    (deletes : (path : CStr) (t : Trace) → R t (sr_delete_item path ∷ t))
    (writes : Steps R writes_items) where
  save_vlan-Always : (name : CStr) (id : ℕ) → Always R (save_vlan name id)
  unfolding save_vlan
  save_vlan-Always name id = search (always_rules, writes)

  vlans_loop-Always : (name : CStr) (bitmap : List ℕ) → Always R (vlans_loop name bitmap)
  unfolding vlans_loop
  vlans_loop-Always name [] = search always_rules
  vlans_loop-Always name (id ∷ bitmap) =
      Always-if (id == 0) (pure tt) (save_vlan name id >> vlans_loop name bitmap)
        (search always_rules)
        (Always-bind order (save_vlan name id) (λ _. vlans_loop name bitmap)
          (save_vlan-Always name id) λ _. vlans_loop-Always name bitmap)

  save_bridge-Always : (b : CStr × Bridge) → Always R (save_bridge env b)
  unfolding save_bridge
  save_bridge-Always (key, br) =
      search (always_rules, writes, vlans_loop-Always, apply_or_discard-Always) depth 12

  pub save_bridges-Always : (bridges : Bridges) → Always R (save_bridges env bridges)
  unfolding save_bridges
  save_bridges-Always bridges =
      search (always_rules, deletes, writes, save_bridge-Always, apply_or_discard-Always) depth 12

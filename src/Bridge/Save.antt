-- ===== src/Bridge/Save.antt =====
-- bridge.c, save_bridges.
pub mod Laws
pub mod Footprint
pub mod Transactions
use tsn.Base.{
  ℕ, Bool, true, false, Option, none, some, List, [], ◌∷◌, ◌++◌, CStr, String, text, take,
  format_int, ◌==◌, if◌then◌else◌,
}
use tsn.Runtime.{
  M, Env, call, run, pure, ◌>>=◌, ◌>>◌, for_each, str, identityref, sr_delete_item, sr_set_item,
}
use tsn.Utils.Mac.{to_ieee_mac_addr}
use tsn.Interface.Save.{apply_or_discard}
use tsn.Bridge.Collect.{Bridge, Bridges}

-- `snprintf (vlan_name, 16, "vlan%d", id)`
unfoldable pub vlan_name : ℕ → CStr
vlan_name id = take 15 (text "vlan" ++ format_int id)

unfoldable pub bridge_path : CStr → CStr → CStr
bridge_path name rest =
    text "/ieee802-dot1q-bridge:bridges/bridge[name='" ++ (name ++ (text "']/" ++ rest))

unfoldable pub component_path : CStr → ℕ → CStr → CStr
component_path name id rest =
    bridge_path name (text "component[name='" ++ (vlan_name id ++ (text "']/" ++ rest)))

-- The two items of a VLAN.
save_vlan : CStr → ℕ → M (Unit {0})
save_vlan name id = do
  run (
      sr_set_item (component_path name id (text "type"))
        (identityref (text "edge-relay-component")))
  run (
      sr_set_item
        (component_path name id
          (text "bridge-vlan/vlan[vid='" ++ (format_int id ++ text "']/name")))
        (str (some (vlan_name id))))

-- The loop over the array of ids, which stops at the first 0.
vlans_loop : CStr → List ℕ → M (Unit {0})
vlans_loop name [] = pure tt
vlans_loop name (id ∷ bitmap) =
    if id == 0 then pure tt else save_vlan name id >> vlans_loop name bitmap

-- The body of the loop over the bridges. A failure to set an item is only logged.
save_bridge : Env → CStr × Bridge → M (Unit {0})
save_bridge env (key, br) = do
  run (
      sr_set_item (bridge_path br.name (text "address")) (str (some (to_ieee_mac_addr br.hw_addr))))
  run (
      sr_set_item (bridge_path br.name (text "bridge-type"))
        (identityref (text "provider-edge-bridge")))
  vlans_loop br.name br.vlan.vlan_bitmap
  apply_or_discard env

unfoldable pub save_bridges : Env → Bridges → M (Unit {0})
unfolding save_bridge vlans_loop save_vlan
save_bridges env bridges = do
  run (sr_delete_item (text "/ieee802-dot1q-bridge:bridges/bridge"))
  apply_or_discard env
  for_each bridges (save_bridge env)

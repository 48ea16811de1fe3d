-- ===== src/Bridge/Save/Transactions.antt =====
-- bridge.c: save_bridges publishes each bridge in a transaction of its own.
use tsn.Base.{
  ℕ, ◌==◌, ◌≡◌, Bool-cases, inl, inr, List, [], ◌∷◌, ◌++◌, map, concat_map, CStr, text, some,
}
use tsn.Runtime.{Env, Trace, str, identityref, sr_delete_item, for_each}
use tsn.Runtime.Laws.{Returns, Returns-bind, Returns-mono}
use tsn.Runtime.Session.{Edit, delete, Sysrepo, IsLawful, Accepts}
use tsn.Runtime.Records.{set_all}
use tsn.Runtime.Session.Laws.{
  edits_of, set_all-Takes, pending_at, Takes, Transacts, start-Takes, Takes-trans, delete-Takes,
  for_each-Transacts, Publishes-append,
}
use tsn.Interface.Save.{apply_or_discard}
use tsn.Interface.Save.Transactions.{apply_or_discard-Transacts}
use tsn.Utils.Mac.{to_ieee_mac_addr}
use tsn.Bridge.Collect.{Bridge, Bridges}
use tsn.Bridge.Save.{bridge_path, save_vlan, vlans_loop, save_bridge, save_bridges}
use tsn.Bridge.Save.Laws.{ids_of, bridge_items, vlan_items}

-- The first transaction deletes what was there.
abbrev pub delete_bridges : List Edit
delete_bridges = delete (text "/ieee802-dot1q-bridge:bridges/bridge") ∷ []

abbrev pub bridge_edits : CStr × Bridge → List Edit
bridge_edits b = edits_of (bridge_items b)

module _ (sys : Sysrepo) (lawful : IsLawful sys) (env : Env) (accepts : Accepts env)
    (s : sys.State) where
  vlans_loop-Takes :
      (name : CStr) (bitmap : List ℕ) (t : Trace)
      → Returns
          (λ _ u. Takes sys env s (edits_of (concat_map (vlan_items name) (ids_of bitmap))) t u)
          (vlans_loop name bitmap t)
  unfolding vlans_loop save_vlan ids_of
  vlans_loop-Takes name [] t = start-Takes sys lawful env accepts s t
  vlans_loop-Takes name (id ∷ bitmap) t = elim (Bool-cases (id == 0)) [
    | inl e ↦ rw e (start-Takes sys lawful env accepts s t)
    | inr e ↦
        let items = vlan_items name id in
        let rest = concat_map (vlan_items name) (ids_of bitmap) in
        rw e (
          Returns-mono (λ _ u. Takes sys env s (edits_of rest) (set_all items t) u)
            (λ _ u. Takes sys env s (edits_of (items ++ rest)) t u)
            (vlans_loop name bitmap (set_all items t))
            (λ _ u k.
              Takes-trans sys lawful env accepts s (edits_of items) (edits_of rest) t
                (set_all items t) u (set_all-Takes sys lawful env accepts s items t) k)
            (vlans_loop-Takes name bitmap (set_all items t)))
  ]

  save_bridge-Transacts :
      (b : CStr × Bridge) (t : Trace)
      → pending_at sys env s t ≡ []
      → Returns (λ _ u. Transacts sys env s (bridge_edits b ∷ []) t u) (save_bridge env b t)
  unfolding save_bridge
  save_bridge-Transacts (key, br) t h =
      let head =
        (bridge_path br.name (text "address"), str (some (to_ieee_mac_addr br.hw_addr)))
        ∷ (bridge_path br.name (text "bridge-type"), identityref (text "provider-edge-bridge"))
        ∷ [] in
      let vlans = concat_map (vlan_items br.name) (ids_of br.vlan.vlan_bitmap) in
      Returns-bind (λ _ u. Takes sys env s (edits_of vlans) (set_all head t) u)
        (λ _ u. Transacts sys env s (bridge_edits (key, br) ∷ []) t u)
        (vlans_loop br.name br.vlan.vlan_bitmap) (λ _. apply_or_discard env) (set_all head t)
        (vlans_loop-Takes br.name br.vlan.vlan_bitmap (set_all head t))
        (λ _ u k.
          apply_or_discard-Transacts sys lawful env accepts s (bridge_edits (key, br)) t u h (
            Takes-trans sys lawful env accepts s (edits_of head) (edits_of vlans) t (set_all head t)
              u (set_all-Takes sys lawful env accepts s head t) k))

  -- On a session that holds no edits, and with edits that sysrepo accepts, `save_bridges` returns
  -- with no edits held. What was committed before has grown by whole transactions only, in order:
  -- the deletion of all bridges, and for each bridge all its items. Each of these was committed as
  -- a whole or dropped as a whole.
  pub save_bridges-Transacts :
      (bridges : Bridges) (t : Trace)
      → pending_at sys env s t ≡ []
      → Returns
          (λ _ u. Transacts sys env s (delete_bridges ∷ map bridge_edits bridges) t u)
          (save_bridges env bridges t)
  unfolding save_bridges
  save_bridges-Transacts bridges t h =
      let deleted = sr_delete_item (text "/ieee802-dot1q-bridge:bridges/bridge") ∷ t in
      Returns-bind (λ _ u. Transacts sys env s (delete_bridges ∷ []) t u)
        (λ _ u. Transacts sys env s (delete_bridges ∷ map bridge_edits bridges) t u)
        (apply_or_discard env) (λ _. for_each bridges (save_bridge env)) deleted
        (apply_or_discard-Transacts sys lawful env accepts s delete_bridges t deleted h
          (delete-Takes sys lawful env accepts s (text "/ieee802-dot1q-bridge:bridges/bridge") t))
        (λ _ u (p, q).
          Returns-mono (λ _ v. Transacts sys env s (map bridge_edits bridges) u v)
            (λ _ v. Transacts sys env s (delete_bridges ∷ map bridge_edits bridges) t v)
            (for_each bridges (save_bridge env) u) (λ _ v (k, l). (k, Publishes-append q l))
            (for_each-Transacts sys lawful env accepts s bridge_edits (save_bridge env)
              save_bridge-Transacts bridges u p))

-- ===== src/Bridge/Save/Laws.antt =====
-- bridge.c, save_bridges: the items that are set for each bridge.
use tsn.Base.{
  ℕ, Bool-cases, inl, inr, some, List, [], ◌∷◌, ◌++◌, append_assoc, append-nil, ◌≡◌, sym, ap, ◌∙◌,
  CStr, text, concat_map, format_int, ◌==◌, if◌then◌else◌,
}
use tsn.Runtime.{Env, Trace, Val, str, identityref, for_each}
use tsn.Runtime.Laws.{Returns, Returns-bind, Returns-mono, for_each_adds}
use tsn.Runtime.Records.{sets}
use tsn.Interface.Save.{apply_or_discard}
use tsn.Interface.Save.Items.{apply_or_discard-sets}
use tsn.Utils.Mac.{to_ieee_mac_addr}
use tsn.Bridge.Collect.{Bridge, Bridges}
use tsn.Bridge.Save.{
  vlan_name, bridge_path, component_path, save_vlan, vlans_loop, save_bridge, save_bridges,
}

-- The ids of an array, up to the first 0.
unfoldable pub ids_of : List ℕ → List ℕ
ids_of [] = []
ids_of (id ∷ bitmap) = if id == 0 then [] else id ∷ ids_of bitmap

-- What is set for a VLAN.
abbrev pub vlan_items : CStr → ℕ → List (CStr × Val)
vlan_items name id =
    (component_path name id (text "type"), identityref (text "edge-relay-component"))
    ∷ (
      (component_path name id (text "bridge-vlan/vlan[vid='" ++ (format_int id ++ text "']/name"))),
      str (some (vlan_name id)),
    )
    ∷ []

-- What is set for a bridge.
abbrev pub bridge_items : CStr × Bridge → List (CStr × Val)
bridge_items (key, br) =
    (bridge_path br.name (text "address"), str (some (to_ieee_mac_addr br.hw_addr)))
    ∷ (bridge_path br.name (text "bridge-type"), identityref (text "provider-edge-bridge"))
    ∷ concat_map (vlan_items br.name) (ids_of br.vlan.vlan_bitmap)

append_two :
    (xs : List (CStr × Val)) (x y : CStr × Val) (zs : List (CStr × Val))
    → ((xs ++ (x ∷ [])) ++ (y ∷ [])) ++ zs ≡ xs ++ (x ∷ y ∷ zs)
append_two xs x y zs = append_assoc (xs ++ (x ∷ [])) (y ∷ []) zs ∙ append_assoc xs (x ∷ []) (y ∷ zs)

vlans_loop-sets :
    (name : CStr) (bitmap : List ℕ) (t : Trace)
    → Returns
        (λ _ u. sets u ≡ sets t ++ concat_map (vlan_items name) (ids_of bitmap))
        (vlans_loop name bitmap t)
unfolding vlans_loop ids_of save_vlan
vlans_loop-sets name [] t = sym (append-nil (sets t))
vlans_loop-sets name (id ∷ bitmap) t = elim (Bool-cases (id == 0)) [
  | inl e ↦ rw e (sym (append-nil (sets t)))
  | inr e ↦ rw e (
      Returns-mono _ _ (vlans_loop name bitmap _) (λ _ u h. h ∙ append_two (sets t) _ _ _)
        (vlans_loop-sets name bitmap _))
]

save_bridge-sets :
    (env : Env) (b : CStr × Bridge) (t : Trace)
    → Returns (λ _ u. sets u ≡ sets t ++ bridge_items b) (save_bridge env b t)
unfolding save_bridge
save_bridge-sets env (key, br) t =
    Returns-bind _ (λ _ u. sets u ≡ sets t ++ bridge_items (key, br))
      (vlans_loop br.name br.vlan.vlan_bitmap) (λ _. apply_or_discard env) _
      (vlans_loop-sets br.name br.vlan.vlan_bitmap _)
      (λ _ u h.
        Returns-mono _ _ (apply_or_discard env u) (λ _ v k. k ∙ h ∙ append_two (sets t) _ _ _)
          (apply_or_discard-sets env u))

-- Whatever sysrepo answers, the function returns, and the items that it sets are, for each bridge
-- in the order of the map, its address, its type, and for each VLAN id of its array before the
-- first 0 the type and the name of a component.
pub save_bridges-sets :
    (env : Env) (bridges : Bridges) (t : Trace)
    → Returns
        (λ _ u. sets u ≡ sets t ++ concat_map bridge_items bridges)
        (save_bridges env bridges t)
unfolding save_bridges
save_bridges-sets env bridges t =
    Returns-bind (λ _ u. sets u ≡ sets t) _ (apply_or_discard env) _ _ (apply_or_discard-sets env _)
      (λ _ u h.
        Returns-mono (λ _ v. sets v ≡ sets u ++ concat_map bridge_items bridges)
          (λ _ v. sets v ≡ sets t ++ concat_map bridge_items bridges)
          (for_each bridges (save_bridge env) u)
          (λ _ v k. k ∙ ap (λ l. l ++ concat_map bridge_items bridges) h)
          (for_each_adds sets bridge_items (save_bridge env) (save_bridge-sets env) bridges u))

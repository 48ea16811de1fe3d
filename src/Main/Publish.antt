-- ===== src/Main/Publish.antt =====
-- main.c, the startup's part for interfaces: from the kernel to the items in sysrepo.
use mathlib.Core.List.{Perm}
use tsn.Base.{
  Bool, true, List, ◌∷◌, ◌++◌, ◌||◌, [], append_assoc, ◌≡◌, refl, ap, ◌∙◌, arith, CStr, concat_map,
  map,
}
use tsn.Runtime.{
  Env, Trace, Call, Val, running, operational, sr_session_switch_ds, for_each, if_nameindex,
}
use tsn.Runtime.Containers.{Containers, IsLawful}
use tsn.Runtime.Laws.{Returns, Returns-bind, Returns-both, Returns-mono, for_each_adds}
use tsn.Runtime.Netlink.{named}
use tsn.Runtime.Netlink.Laws.{is_filled}
use tsn.Runtime.Records.{sets, written, session_ds}
use tsn.Runtime.Always.{IsOrder, Steps}
use tsn.Runtime.Footprint.{Only, Grows, Grows-IsOrder, Grows-call, Returns-Only}
use tsn.Runtime.Netlink.Footprint.{is_frame}
use tsn.Interface.Speed.Footprint.{asks_speed, get_interface_speed-Always}
use tsn.Interface.Collect.{Interfaces, collect_interfaces}
use tsn.Interface.Collect.Content.{Links, IsCache, Collects, collect_interfaces-Collects}
use tsn.Interface.Collect.Footprint.{collects, collect_interfaces-Always}
use tsn.Interface.Save.{save_interface_running, save_interface_operational}
use tsn.Interface.Save.Items.{
  running_items, operational_items, save_interface_running-sets, save_interface_operational-sets,
}
use tsn.Main.{save_interfaces}
use tsn.Main.Laws.{in_running, in_operational, save_interfaces-written}

-- The items of all interfaces with their values, as the startup sets them.
abbrev pub startup_items : Interfaces → List (CStr × Val)
startup_items r =
    concat_map (λ (key, intf). running_items intf) r
    ++ concat_map (λ (key, intf). operational_items intf) r

-- The calls that collecting makes.
abbrev is_collecting : Call → Bool
is_collecting c = is_frame c || (asks_speed c || collects c)

is_collecting-ds :
    (c : Call) (t : Trace) → is_collecting c ≡ true → session_ds (c ∷ t) ≡ session_ds t
is_collecting-ds c t h = ground arith

is_collecting-written :
    (c : Call) (t : Trace) → is_collecting c ≡ true → written (c ∷ t) ≡ written t
is_collecting-written c t h = ground arith

collect_interfaces-Only :
    (env : Env) (lib : Containers) (interfaces : Interfaces)
    → Only is_collecting (collect_interfaces env lib interfaces)
collect_interfaces-Only env lib interfaces =
    collect_interfaces-Always env lib order (λ c h. step c (rw h refl))
      (λ c h. step c (ground arith))
      (get_interface_speed-Always env order λ c h. step c (ground arith)) interfaces
  where
    order : IsOrder (Grows is_collecting)
    order = Grows-IsOrder is_collecting

    step : Steps (Grows is_collecting) is_collecting
    step = Grows-call is_collecting

module _ (env : Env) where
  save_interfaces-sets :
      (interfaces : Interfaces) (t : Trace)
      → Returns
          (λ _ u. sets u ≡ sets t ++ startup_items interfaces)
          (save_interfaces env interfaces t)
  unfolding save_interfaces
  save_interfaces-sets interfaces t =
      Returns-bind
        (λ _ u. sets u ≡ sets t ++ concat_map (λ (key, intf). running_items intf) interfaces) _
        (for_each interfaces λ (key, intf). save_interface_running env intf) _ t
        (for_each_adds sets (λ (key, intf). running_items intf)
          (λ (key, intf). save_interface_running env intf)
          (λ (key, intf) u. save_interface_running-sets env intf u) interfaces t)
        (λ _ u e.
          Returns-bind
            (λ _ v.
              sets v ≡ sets u ++ concat_map (λ (key, intf). operational_items intf) interfaces)
            _ (for_each interfaces λ (key, intf). save_interface_operational env intf) _
            (sr_session_switch_ds operational ∷ u)
            (for_each_adds sets (λ (key, intf). operational_items intf)
              (λ (key, intf). save_interface_operational env intf)
              (λ (key, intf) v. save_interface_operational-sets env intf v) interfaces
              (sr_session_switch_ds operational ∷ u))
            (λ _ v k.
              k
              ∙ ap (λ l. l ++ concat_map (λ (key, intf). operational_items intf) interfaces) e
              ∙ append_assoc (sets t) _ _))

-- From `t` to `u` the items of these interfaces were set: the types in the running datastore, then
-- all else in the operational one.
abbrev pub Saved : Interfaces → Trace → Trace → Type 0
Saved r t u =
    (sets u ≡ sets t ++ startup_items r)
    × (written u
        ≡ (written t ++ map (λ p. (running, p)) (in_running r))
          ++ map (λ p. (operational, p)) (in_operational r))
    × (session_ds u ≡ running)

pub save_interfaces-Saved :
    (env : Env) (r : Interfaces) (t : Trace)
    → session_ds t ≡ running
    → Returns (λ _ u. Saved r t u) (save_interfaces env r t)
save_interfaces-Saved env r t ds =
    Returns-mono _ _ (save_interfaces env r t) (λ _ v (i, (j, k)). (i, k, j))
      (Returns-both _ _ (save_interfaces env r t) (save_interfaces-sets env r t)
        (save_interfaces-written env r t ds))

module _ (env : Env) (lib : Containers) (links : Links) where
  -- The map has a node for each port of the switch, and nothing was written meanwhile.
  abbrev pub Collected : Trace → Interfaces → Trace → Type 0
  Collected t r u =
      ((made : Interfaces) × Collects env links (named (env.if_nameindex (if_nameindex ∷ t))) made
        × Perm r made)
      × (sets u ≡ sets t)
      × (written u ≡ written t)
      × (session_ds u ≡ session_ds t)

  pub collect_interfaces-Collected :
      IsLawful lib
      → IsCache env links
      → (t : Trace) → is_filled env (if_nameindex ∷ t) ≡ true
      → Returns (Collected t) (collect_interfaces env lib [] t)
  collect_interfaces-Collected lawful cache t filled =
      Returns-mono _ _ (collect_interfaces env lib [] t)
        (λ r u (((made, h, p, e), d), w). ((made, h, p), e, w, d))
        (Returns-Only _ written is_collecting (collect_interfaces env lib []) is_collecting-written
          (collect_interfaces-Only env lib []) t
          (Returns-Only _ session_ds is_collecting (collect_interfaces env lib []) is_collecting-ds
            (collect_interfaces-Only env lib []) t
            (collect_interfaces-Collects env lib lawful links cache t filled)))

  -- Both, one after the other.
  abbrev pub InterfacesSet : Trace → Trace → Type 0
  InterfacesSet t u = (r : Interfaces) × (a : Trace) × Collected t r a × Saved r a u

-- ===== src/Bridge/Publish.antt =====
-- bridge.c, as main calls it: the bridges of the machine, from the kernel and the bridge command to
-- the items in sysrepo.
use mathlib.Core.List.{Perm}
use tsn.Base.{◌≡◌, true, ap, ◌∙◌, concat_map, [], ◌∷◌, ◌++◌}
use tsn.Runtime.{Env, Trace, if_nameindex, ◌>>=◌}
use tsn.Runtime.Containers.{Containers, IsLawful}
use tsn.Runtime.Laws.{Returns, Returns-bind, Returns-mono}
use tsn.Runtime.Netlink.{named}
use tsn.Runtime.Netlink.Laws.{is_filled}
use tsn.Runtime.Records.{sets}
use tsn.Bridge.Vlan.{CJson}
use tsn.Bridge.Collect.{Bridges, collect_bridges}
use tsn.Bridge.Collect.Content.{Machine, IsMachine, Collects, collect_bridges-Collects}
use tsn.Bridge.Save.{save_bridges}
use tsn.Bridge.Save.Laws.{bridge_items, save_bridges-sets}

module _ (env : Env) (lib : Containers) (cjson : CJson) (machine : Machine) where
  -- From `t` to `u` the items of all bridges of the machine were set.
  abbrev pub BridgesSet : Trace → Trace → Type 0
  BridgesSet t u =
      (r : Bridges) × ((made : Bridges) × Collects cjson machine
          (named (env.if_nameindex (if_nameindex ∷ t))) made
        × Perm r made)
      × (sets u ≡ sets t ++ concat_map bridge_items r)

  -- Where the cache of links is filled and gives one link or none for each name however often it is
  -- read, and the bridge command can be run and prints no NUL, collecting the bridges into an empty
  -- map and saving that returns, whatever sysrepo answers. The items that it has set are those of
  -- one bridge for each of the kernel's interfaces whose link is a bridge, with the VLANs that the
  -- command printed for it, and no other; the bridges come in the order of the map.
  pub collect_bridges-save_bridges :
      IsLawful lib
      → IsMachine env machine
      → (t : Trace) → is_filled env (if_nameindex ∷ t) ≡ true
      → Returns (λ _ u. BridgesSet t u) ((collect_bridges env lib cjson [] >>= save_bridges env) t)
  collect_bridges-save_bridges lawful is t filled =
      let entries = named (env.if_nameindex (if_nameindex ∷ t)) in
      Returns-bind
        (λ r u.
          (made : Bridges) × Collects cjson machine entries made × Perm r made × (sets u ≡ sets t))
        (λ _ u. BridgesSet t u) (collect_bridges env lib cjson []) (save_bridges env) t
        (collect_bridges-Collects env lib cjson lawful machine is t filled)
        (λ r u (made, h, p, e).
          Returns-mono (λ _ v. sets v ≡ sets u ++ concat_map bridge_items r) (λ _ v. BridgesSet t v)
            (save_bridges env r u)
            (λ _ v i. (r, (made, h, p), i ∙ ap (λ l. l ++ concat_map bridge_items r) e))
            (save_bridges-sets env r u))

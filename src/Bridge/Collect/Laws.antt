-- ===== src/Bridge/Collect/Laws.antt =====
-- bridge.c: collect_bridges returns on every path, and gives back what it takes.
use tsn.Base.{ℕ, refl, arith, Bool-cases, inl, inr, Option, none, some, ◌∷◌, CStr, take}
use tsn.Runtime.{
  Env, Trace, Link, popen, if_nameindex, rtnl_link_get_by_name, rtnl_link_put, pure, fold_each,
}
use tsn.Runtime.Containers.{Containers}
use tsn.Runtime.Streams.Laws.{read_all_total}
use tsn.Runtime.Laws.{Returns, Returns-bind, Returns-mono, fold_each-Returns}
use tsn.Runtime.Records.{Resource, Keeps, quiet-Keeps, popen-Keeps, Keeps-trans}
use tsn.Runtime.Netlink.{with_link_cache, named}
use tsn.Runtime.Netlink.Laws.{Leaves, with_link_cache_keeps}
use tsn.Bridge.Vlan.{CJson}
use tsn.Bridge.Collect.{
  Bridges, name_len, command, read_vlans, get_bridge_vlan, add_bridge, add_if_bridge, bridge_round,
  collect_bridges,
}

module _ (env : Env) (lib : Containers) (cjson : CJson) (r : Resource) where
  same : (t : Trace) → Keeps env r 0 t t
  same t = omega arith

  get_bridge_vlan-Leaves : (name : CStr) → Leaves env r 0 (get_bridge_vlan env lib cjson name)
  unfolding get_bridge_vlan read_vlans
  get_bridge_vlan-Leaves name t =
      let (closed, unopened) = popen-Keeps env r (command name) t in
      let (output, i) = read_all_total lib 1022 (env.contents (popen (command name) ∷ t)) in
      elim (Bool-cases (env.succeeds (popen (command name) ∷ t))) [
        | inr e ↦ rw e (unopened e)
        | inl e ↦ rw (e, i) (closed e)
      ]

  add_if_bridge-Leaves :
      (bridges : Bridges) (index : ℕ) (name : CStr) (link : Option Link)
      → Leaves env r 0 (add_if_bridge env lib cjson bridges index name link)
  unfolding add_if_bridge add_bridge
  add_if_bridge-Leaves bridges index name none t = same t
  add_if_bridge-Leaves bridges index name (some link) t = elim (Bool-cases link.is_bridge) [
    | inr e ↦ rw e (same t)
    | inl e ↦ rw e (
        Returns-bind (λ _ u. Keeps env r 0 t u) (λ _ u. Keeps env r 0 t u)
          (get_bridge_vlan env lib cjson (take name_len name)) _ t
          (get_bridge_vlan-Leaves (take name_len name) t) (λ _ u x. x))
  ]

  bridge_round-Leaves :
      (bridges : Bridges) (entry : ℕ × CStr)
      → Leaves env r 0 (bridge_round env lib cjson bridges entry)
  unfolding bridge_round
  bridge_round-Leaves bridges (index, name) t =
      let asked = rtnl_link_get_by_name name ∷ t in
      let step = quiet-Keeps env r 0 (rtnl_link_get_by_name name) t t refl (same t) in
      let link = env.link_get_by_name asked name in
      Returns-bind (λ _ u. Keeps env r 0 asked u) (λ _ u. Keeps env r 0 t u)
        (add_if_bridge env lib cjson bridges index name link) _ asked
        (add_if_bridge-Leaves bridges index name link asked)
        (λ _ u x.
          quiet-Keeps env r 0 rtnl_link_put t u refl (Keeps-trans env r 0 0 t asked u step x))

  -- Whatever the kernel, the command and the parser answer, `collect_bridges` returns, and has
  -- given back each netlink socket, cache of links, stream of a command, descriptor and context
  -- that it took.
  pub collect_bridges-Keeps :
      (bridges : Bridges) (t : Trace)
      → Returns (λ _ u. Keeps env r 0 t u) (collect_bridges env lib cjson bridges t)
  unfolding collect_bridges
  collect_bridges-Keeps bridges t =
      let start = if_nameindex ∷ t in
      let step = quiet-Keeps env r 0 if_nameindex t t refl (same t) in
      let entries = named (env.if_nameindex start) in
      Returns-mono (λ _ u. Keeps env r 0 start u) (λ _ u. Keeps env r 0 t u)
        (with_link_cache env (pure bridges) (pure bridges)
          (fold_each entries bridges (bridge_round env lib cjson)) (pure tt) start)
        (λ _ u x. Keeps-trans env r 0 0 t start u step x)
        (with_link_cache_keeps env r 0 (pure bridges) (pure bridges)
          (fold_each entries bridges (bridge_round env lib cjson)) (pure tt) (λ u. same u)
          (λ u. same u)
          (λ u.
            fold_each-Returns (λ _ v. Keeps env r 0 u v) (bridge_round env lib cjson)
              (λ entry s v x.
                Returns-mono _ _ (bridge_round env lib cjson s entry v)
                  (λ _ w y. Keeps-trans env r 0 0 u v w x y) (bridge_round-Leaves s entry v))
              entries bridges u (same u))
          (λ u. same u) start)

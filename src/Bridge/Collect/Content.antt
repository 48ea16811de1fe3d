-- ===== src/Bridge/Collect/Content.antt =====
-- bridge.c: what collect_bridges collects.
use mathlib.Core.List.{Perm}
use mathlib.Core.List.Perm
use tsn.Base.{
  ℕ, ◌≡◌, refl, ap, ◌∙◌, arith, Bool, true, false, Bool-cases, inl, inr, Option, none, some, List,
  [], ◌∷◌, ◌++◌, append-nil, subst, take, CStr,
}
use tsn.Runtime.{
  Env, Trace, Link, popen, if_nameindex, rtnl_link_get_by_name, nl_connect, nl_socket_alloc,
  rtnl_link_alloc_cache, pure,
}
use tsn.Runtime.Containers.{Containers, IsLawful}
use tsn.Runtime.Laws.{Returns, Returns-bind, Returns-mono}
use tsn.Runtime.Records.{sets}
use tsn.Runtime.Maps.{Adds, fold_each-Adds}
use tsn.Runtime.Netlink.{named}
use tsn.Runtime.Netlink.Laws.{is_filled, with_link_cache_filled}
use tsn.Runtime.Streams.Laws.{HasNoNul, read_all_lem}
use tsn.Bridge.Vlan.{CJson}
use tsn.Bridge.Vlan.Laws.{entries_of, Reads, parse_vlans-Reads}
use tsn.Bridge.Collect.{
  Bridge, Bridges, name_len, buffer_length, command, read_vlans, get_bridge_vlan, add_bridge,
  add_if_bridge, bridge_round, collect_bridges,
}

-- What the cache holds by name, and what the bridge command prints of each.
pub record Machine : Type 0 where
  pub by_name : CStr → Option Link
  pub output : CStr → CStr

-- The cache gives the same answer however often it is read, and the command can be run and prints
-- no NUL.
pub record IsMachine (env : Env) (machine : Machine) : Type 0 where
  pub reads_name : (t : Trace) (name : CStr) → env.link_get_by_name t name ≡ machine.by_name name
  pub runs : (t : Trace) (name : CStr) → env.succeeds (popen (command name) ∷ t) ≡ true
  pub prints :
      (t : Trace) (name : CStr) → env.contents (popen (command name) ∷ t) ≡ machine.output name
  pub no_nul : (name : CStr) → HasNoNul (machine.output name)

-- A bridge that was made of a link: its VLANs are those that the command printed.
pub record IsMadeOf (cjson : CJson) (machine : Machine) (index : ℕ) (name : CStr) (link : Link)
    (br : Bridge) : Type 0 where
  pub has_name : br.name ≡ take name_len name
  pub has_index : br.index ≡ index
  pub has_hw_addr : br.hw_addr ≡ take 22 link.addr
  pub reads_vlan : Reads (entries_of cjson br.name (machine.output br.name)) br.vlan

abbrev pub is_bridge_link : Option Link → Bool
is_bridge_link none = false
is_bridge_link (some link) = link.is_bridge

-- What the entries give: a node for each name whose link is a bridge.
pub data Collects (cjson : CJson) (machine : Machine) : List (ℕ × CStr) → Bridges → Type 0 where
  end : Collects cjson machine [] []
  pass :
      {index : ℕ} {name : CStr} {next : List (ℕ × CStr)} {out : Bridges}
      → is_bridge_link (machine.by_name name) ≡ false
      → Collects cjson machine next out
      → Collects cjson machine ((index, name) ∷ next) out
  collect :
      {index : ℕ} {name : CStr} {next : List (ℕ × CStr)} {out : Bridges} {br : Bridge} (link : Link)
      → machine.by_name name ≡ some link
      → link.is_bridge ≡ true
      → IsMadeOf cjson machine index name link br
      → Collects cjson machine next out
      → Collects cjson machine ((index, name) ∷ next) ((name, br) ∷ out)

module _ (env : Env) (lib : Containers) (cjson : CJson) (lawful : IsLawful lib) (machine : Machine)
    (is : IsMachine env machine) where
  get_bridge_vlan-Reads :
      (name : CStr) (t : Trace)
      → Returns
          (λ vlan u. Reads (entries_of cjson name (machine.output name)) vlan × (sets u ≡ sets t))
          (get_bridge_vlan env lib cjson name t)
  unfolding get_bridge_vlan read_vlans
  get_bridge_vlan-Reads name t =
      rw
        (
          is.runs t name,
          is.prints t name,
          read_all_lem lib lawful buffer_length (machine.output name) (omega arith)
              (is.no_nul name),
        )
        (parse_vlans-Reads cjson name (machine.output name), refl)

  add_bridge-Adds :
      (index : ℕ) (name : CStr) (link : Link) (s : Bridges) (t : Trace)
      → machine.by_name name ≡ some link
      → link.is_bridge ≡ true
      → Returns
          (λ s' u. Adds (Collects cjson machine) (index, name) s s' × (sets u ≡ sets t))
          (add_bridge env lib cjson s index name link t)
  unfolding add_bridge
  add_bridge-Adds index name link s t i l =
      let short = take name_len name in
      Returns-bind
        (λ vlan u. Reads (entries_of cjson short (machine.output short)) vlan × (sets u ≡ sets t))
        (λ s' u. Adds (Collects cjson machine) (index, name) s s' × (sets u ≡ sets t))
        (get_bridge_vlan env lib cjson short) _ t (get_bridge_vlan-Reads short t)
        (λ vlan u (reads, same).
          let br : Bridge = record {
            name = short;
            index = index;
            hw_addr = take 22 link.addr;
            vlan = vlan;
          } in
          (
            (
              (name, br) ∷ [],
              (λ next out h.
                  Collects.collect link i l
                    (record {
                      has_name = refl;
                      has_index = refl;
                      has_hw_addr = refl;
                      reads_vlan = reads;
                    })
                    h),
              lawful.shash_add-perm Bridge s name br,
            ),
            same,
          ))

  bridge_round-Adds :
      (entry : ℕ × CStr) (s : Bridges) (t : Trace)
      → Returns
          (λ s' u. Adds (Collects cjson machine) entry s s' × (sets u ≡ sets t))
          (bridge_round env lib cjson s entry t)
  unfolding bridge_round add_if_bridge add_bridge
  bridge_round-Adds (index, name) s t = go (machine.by_name name) refl
    where
      at : Trace
      at = rtnl_link_get_by_name name ∷ t

      go :
          (found : Option Link)
          → machine.by_name name ≡ found
          → Returns
              (λ s' u. Adds (Collects cjson machine) (index, name) s s' × (sets u ≡ sets t))
              (bridge_round env lib cjson s (index, name) t)
      go none i =
          rw (is.reads_name at name ∙ i)
            (([], (λ next out h. Collects.pass (ap is_bridge_link i) h), Perm.refl s), refl)
      go (some link) i = elim (Bool-cases link.is_bridge) [
        | inr l ↦
            rw (is.reads_name at name ∙ i, l)
              (([], (λ next out h. Collects.pass (ap is_bridge_link i ∙ l) h), Perm.refl s), refl)
        | inl l ↦
            rw (is.reads_name at name ∙ i, l)
              (Returns-bind
                (λ s' u. Adds (Collects cjson machine) (index, name) s s' × (sets u ≡ sets t))
                (λ s' u. Adds (Collects cjson machine) (index, name) s s' × (sets u ≡ sets t))
                (add_bridge env lib cjson s index name link) _ at
                (add_bridge-Adds index name link s at i l) (λ _ _ h. h))
      ]

  -- Where the cache of links is filled and gives one link or none for each name however often it is
  -- read, and the bridge command can be run and prints no NUL, `collect_bridges` returns, on an
  -- empty map, a map with exactly these nodes, in some order: one for each of the kernel's
  -- interfaces whose link is a bridge, with the VLANs that the command printed for it. No item is
  -- set.
  pub collect_bridges-Collects :
      (t : Trace)
      → is_filled env (if_nameindex ∷ t) ≡ true
      → Returns
          (λ r u.
            (made : Bridges) × Collects cjson machine
              (named (env.if_nameindex (if_nameindex ∷ t)))
              made
            × Perm r made
            × (sets u ≡ sets t))
          (collect_bridges env lib cjson [] t)
  unfolding collect_bridges
  collect_bridges-Collects t filled =
      let entries = named (env.if_nameindex (if_nameindex ∷ t)) in
      with_link_cache_filled env _ _ _ _ (pure tt) (if_nameindex ∷ t) filled (
        Returns-mono
          (λ r u.
            (made : Bridges) × Collects cjson machine entries made
            × Perm r (made ++ [])
            × (sets u ≡ sets t))
          _ _ (λ r u (made, h, p, e). (made, h, subst (λ l. Perm r l) (append-nil made) p, e))
          (fold_each-Adds (Collects cjson machine) (bridge_round env lib cjson) Collects.end
            bridge_round-Adds entries []
            (rtnl_link_alloc_cache ∷ nl_connect ∷ nl_socket_alloc ∷ if_nameindex ∷ t)))

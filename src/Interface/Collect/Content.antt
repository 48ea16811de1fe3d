-- ===== src/Interface/Collect/Content.antt =====
-- interface.c: what collect_interfaces collects.
use mathlib.Core.List.{Perm}
use mathlib.Core.List.Perm
use tsn.Base.{
  ℕ, ◌≡◌, refl, ap, ◌∙◌, Bool, true, false, Bool-cases, inl, inr, Option, none, some, List, [], ◌∷◌,
  ◌++◌, append-nil, subst, take, CStr, ◌==◌, if◌then◌else◌,
}
use tsn.Runtime.{
  Env, Trace, Link, if_nameindex, rtnl_link_get_by_name, rtnl_link_get, nl_connect, nl_socket_alloc,
  rtnl_link_alloc_cache, pure,
}
use tsn.Runtime.Containers.{Containers, IsLawful}
use tsn.Runtime.Laws.{Returns, Returns-bind, Returns-mono}
use tsn.Runtime.Records.{sets}
use tsn.Runtime.Maps.{Adds, fold_each-Adds}
use tsn.Runtime.Netlink.{named, is_switch_port}
use tsn.Runtime.Netlink.Laws.{is_filled, with_link_cache_filled}
use tsn.Interface.{Interface}
use tsn.Interface.Speed.{get_interface_speed, speed_bps}
use tsn.Interface.Speed.Laws.{speed_at, get_interface_speed-speed_at}
use tsn.Interface.Collect.{
  Interfaces, loopback, interface_create, get_master_name, make_interface, add_link, collect_round,
  collect_interfaces,
}

-- The cache of links: by name and by number.
pub record Links : Type 0 where
  pub by_name : CStr → Option Link
  pub by_index : ℕ → Option Link

-- The name of a master's link.
abbrev pub name_of : Option Link → Option CStr
name_of none = none
name_of (some link) = some link.name

-- A structure that was made of a link, with the speed that the kernel gave when it was asked.
pub record IsMadeOf (env : Env) (links : Links) (name : CStr) (link : Link) (intf : Interface)
    : Type 0 where
  pub has_name : intf.name ≡ name
  pub has_index : intf.index ≡ link.ifindex
  pub has_hw_addr : intf.hw_addr ≡ take 22 link.addr
  pub has_flags : intf.flags ≡ link.flags
  pub has_kind : intf.kind ≡ link.kind
  pub has_vlan_id : intf.vlan_id ≡ (if link.is_vlan then link.vlan_id else 0)
  pub has_pvid : intf.pvid ≡ (if link.is_bridge then link.bridge_pvid else 0)
  pub has_master :
      intf.master_name ≡ (if link.master == 0 then none else name_of (links.by_index link.master))
  pub has_speed : (asked : Trace) × (intf.speed ≡ speed_bps (speed_at env name asked))

-- A name that is passed over: of no port of the switch, without a link, or of a loopback.
abbrev pub IsPassed : Links → CStr → Type 0
IsPassed links name =
    (link : Option Link) × (links.by_name name ≡ link)
    × (is_switch_port name ≡ true
        → elim link [ none ↦ Unit | some found ↦ found.arptype == loopback ≡ true ])

-- What the entries give: a node for each name of a port that has a link other than a loopback.
pub data Collects (env : Env) (links : Links) : List (ℕ × CStr) → Interfaces → Type 0 where
  end : Collects env links [] []
  pass :
      {index : ℕ} {name : CStr} {next : List (ℕ × CStr)} {out : Interfaces}
      → IsPassed links name
      → Collects env links next out
      → Collects env links ((index, name) ∷ next) out
  collect :
      {index : ℕ} {name : CStr} {next : List (ℕ × CStr)} {out : Interfaces} {intf : Interface}
      → is_switch_port name ≡ true
      → (link : Link) → links.by_name name ≡ some link
      → link.arptype == loopback ≡ false
      → IsMadeOf env links name link intf
      → Collects env links next out
      → Collects env links ((index, name) ∷ next) ((name, intf) ∷ out)

-- The cache gives the same answer however often it is read, and the master of each of its links is
-- in it.
pub record IsCache (env : Env) (links : Links) : Type 0 where
  pub reads_name : (t : Trace) (name : CStr) → env.link_get_by_name t name ≡ links.by_name name
  pub reads_index : (t : Trace) (index : ℕ) → env.link_get t index ≡ links.by_index index
  pub masters :
      (name : CStr) (link : Link)
      → links.by_name name ≡ some link
      → link.master == 0 ≡ false
      → (master : Link) × (links.by_index link.master ≡ some master)

module _ (env : Env) (lib : Containers) (lawful : IsLawful lib) (links : Links)
    (cache : IsCache env links) where
  get_master_name-name_of :
      (name : CStr) (link : Link) (t : Trace)
      → links.by_name name ≡ some link
      → Returns
          (λ r u.
            (r ≡ (if link.master == 0 then none else name_of (links.by_index link.master)))
            × (sets u ≡ sets t))
          (get_master_name env link.master t)
  unfolding get_master_name
  get_master_name-name_of name link t held =
      let master = link.master in
      elim (Bool-cases (master == 0)) [
        | inl e ↦ rw e (refl, refl)
        | inr e ↦
            rw
              (
                e,
                cache.reads_index (rtnl_link_get master ∷ t) master,
                (cache.masters name link held e).1,
              )
              (refl, refl)
      ]

  make_interface-IsMadeOf :
      (name : CStr) (link : Link) (t : Trace)
      → links.by_name name ≡ some link
      → Returns
          (λ intf u. IsMadeOf env links name link intf × (sets u ≡ sets t))
          (make_interface env name link t)
  unfolding make_interface interface_create
  make_interface-IsMadeOf name link t held =
      Returns-bind (λ s u. (s ≡ speed_at env name t) × (sets u ≡ sets t))
        (λ intf u. IsMadeOf env links name link intf × (sets u ≡ sets t))
        (get_interface_speed env name) _ t (get_interface_speed-speed_at env name t)
        λ speed u (told, k).
          Returns-bind
            (λ r v.
              (r ≡ (if link.master == 0 then none else name_of (links.by_index link.master)))
              × (sets v ≡ sets u))
            (λ intf v. IsMadeOf env links name link intf × (sets v ≡ sets t))
            (get_master_name env link.master) _ u (get_master_name-name_of name link u held)
            λ master_name v (e, l). (
              record {
                has_name = refl;
                has_index = refl;
                has_hw_addr = refl;
                has_flags = refl;
                has_kind = refl;
                has_vlan_id = refl;
                has_pvid = refl;
                has_master = e;
                has_speed = (t, ap speed_bps told);
              },
              l ∙ k,
            )

  -- A round that adds nothing.
  passed :
      (index : ℕ) (name : CStr) (s : Interfaces)
      → IsPassed links name
      → Adds (Collects env links) (index, name) s s
  passed index name s p = ([], (λ next out h. Collects.pass p h), Perm.refl s)

  collect_round-Adds :
      (entry : ℕ × CStr) (s : Interfaces) (t : Trace)
      → Returns
          (λ s' u. Adds (Collects env links) entry s s' × (sets u ≡ sets t))
          (collect_round env lib s entry t)
  unfolding collect_round add_link
  collect_round-Adds (index, name) s t = go (is_switch_port name) (links.by_name name) refl refl
    where
      at : Trace
      at = rtnl_link_get_by_name name ∷ t

      go :
          (port : Bool) (found : Option Link)
          → is_switch_port name ≡ port
          → links.by_name name ≡ found
          → Returns
              (λ s' u. Adds (Collects env links) (index, name) s s' × (sets u ≡ sets t))
              (collect_round env lib s (index, name) t)
      go false found e i = rw e (passed index name s (found, i, λ k. absurd (cc (e, k))), refl)
      go true none e i =
          rw (e, cache.reads_name at name ∙ i) (passed index name s (none, i, λ _. tt), refl)
      go true (some link) e i = elim (Bool-cases (link.arptype == loopback)) [
        | inl l ↦
            rw (e, cache.reads_name at name ∙ i, l)
              (passed index name s (some link, i, λ _. l), refl)
        | inr l ↦
            rw (e, cache.reads_name at name ∙ i, l)
              (Returns-bind (λ intf u. IsMadeOf env links name link intf × (sets u ≡ sets at)) _
                (make_interface env name link) _ at (make_interface-IsMadeOf name link at i)
                (λ intf u (made, k). (
                  (
                    (name, intf) ∷ [],
                    (λ next out h. Collects.collect e link i l made h),
                    lawful.shash_add-perm Interface s name intf,
                  ),
                  k,
                )))
      ]

  -- Where the cache of links is filled, gives one link or none for each name and number however
  -- often it is read, and holds the masters of its links, `collect_interfaces` returns, on an empty
  -- map, a map with exactly these nodes, in some order: one under each name of the kernel's
  -- interfaces that holds `eno` or `swp` and has a link other than a loopback, with the fields of
  -- this link and the speed that the kernel gave when it was asked. No item is set.
  pub collect_interfaces-Collects :
      (t : Trace)
      → is_filled env (if_nameindex ∷ t) ≡ true
      → Returns
          (λ r u.
            (made : Interfaces) × Collects env links
              (named (env.if_nameindex (if_nameindex ∷ t)))
              made
            × Perm r made
            × (sets u ≡ sets t))
          (collect_interfaces env lib [] t)
  unfolding collect_interfaces
  collect_interfaces-Collects t filled =
      let entries = named (env.if_nameindex (if_nameindex ∷ t)) in
      with_link_cache_filled env _ _ _ _ (pure tt) (if_nameindex ∷ t) filled (
        Returns-mono
          (λ r u.
            (made : Interfaces) × Collects env links entries made
            × Perm r (made ++ [])
            × (sets u ≡ sets t))
          _ _ (λ r u (made, h, p, e). (made, h, subst (λ l. Perm r l) (append-nil made) p, e))
          (fold_each-Adds (Collects env links) (collect_round env lib) Collects.end
            collect_round-Adds entries []
            (rtnl_link_alloc_cache ∷ nl_connect ∷ nl_socket_alloc ∷ if_nameindex ∷ t)))

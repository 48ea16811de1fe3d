-- ===== src/Interface/Collect/Laws.antt =====
-- interface.c: collect_interfaces gives back what it takes of netlink.
use tsn.Base.{
  [], ℕ, ◌≡◌, refl, arith, false, Bool-cases, inl, inr, Option, none, some, ◌∷◌, CStr, ◌==◌,
}
use tsn.Runtime.{
  Env, Trace, Link, rtnl_link_alloc_cache, socket, siocethtool, if_nameindex, rtnl_link_get_by_name,
  rtnl_link_get, rtnl_link_put, pure, fold_each,
}
use tsn.Runtime.Containers.{Containers}
use tsn.Runtime.Laws.{Returns, Returns-bind, Returns-mono, Returns-both, fold_each-Returns}
use tsn.Runtime.Records.{
  Resource, Keeps, quiet-Keeps, Keeps-trans, is_fd, socket-Keeps, close-Keeps,
}
use tsn.Runtime.Netlink.{with_link_cache, named, is_switch_port}
use tsn.Runtime.Netlink.Laws.{Leaves, with_link_cache_keeps}
use tsn.Interface.Speed.{get_interface_speed}
use tsn.Interface.Collect.{
  Interfaces, loopback, get_master_name, make_interface, add_link, collect_round,
  collect_interfaces,
}

-- The calls up to the one that filled the cache that is read now.
abbrev pub cache_of : Trace → Trace
cache_of [] = []
cache_of (rtnl_link_alloc_cache ∷ t) = rtnl_link_alloc_cache ∷ t
cache_of (_ ∷ t) = cache_of t

-- The master of a link that a cache holds is itself a link of the same cache.
abbrev pub HasMasters : Env → Type 0
HasMasters env =
    (t u : Trace) (name : CStr) (link : Link)
    → cache_of u ≡ cache_of t
    → env.link_get_by_name t name ≡ some link
    → link.master == 0 ≡ false
    → (master : Link) × (env.link_get u link.master ≡ some master)

-- Asking for a speed leaves the cache as it is.
get_interface_speed-cache_of :
    (env : Env) (name : CStr) (t : Trace)
    → Returns (λ _ u. cache_of u ≡ cache_of t) (get_interface_speed env name t)
unfolding get_interface_speed
get_interface_speed-cache_of env name t = elim (Bool-cases (env.succeeds (socket ∷ t))) [
  | inr e ↦ rw e refl
  | inl e ↦ elim (Bool-cases (env.succeeds (siocethtool name ∷ socket ∷ t))) [
    | inl k ↦ rw (e, k) refl
    | inr k ↦ rw (e, k) refl
  ]
]

module _ (env : Env) (lib : Containers) (r : Resource) (other : is_fd r ≡ false)
    (masters : HasMasters env) where
  same : (t : Trace) → Keeps env r 0 t t
  same t = omega arith

  get_interface_speed-Leaves : (name : CStr) → Leaves env r 0 (get_interface_speed env name)
  unfolding get_interface_speed
  get_interface_speed-Leaves name t =
      let opened = socket-Keeps env r t t other (same t) in
      let asked = quiet-Keeps env r 0 (siocethtool name) t (socket ∷ t) refl opened in
      elim (Bool-cases (env.succeeds (socket ∷ t))) [
        | inr e ↦ rw e opened
        | inl e ↦ elim (Bool-cases (env.succeeds (siocethtool name ∷ socket ∷ t))) [
          | inl k ↦ rw (e, k) (close-Keeps env r t (siocethtool name ∷ socket ∷ t) other asked)
          | inr k ↦ rw (e, k) asked
        ]
      ]

  -- A link that the cache of `at` holds.
  abbrev IsHeld : Trace → Link → Type 0
  IsHeld at link = (name : CStr) × (env.link_get_by_name at name ≡ some link)

  get_master_name-Leaves :
      (at : Trace) (link : Link) (t : Trace)
      → IsHeld at link
      → cache_of t ≡ cache_of at
      → Returns (λ _ u. Keeps env r 0 t u) (get_master_name env link.master t)
  unfolding get_master_name
  get_master_name-Leaves at link t (name, held) here =
      let master = link.master in
      let asked = quiet-Keeps env r 0 (rtnl_link_get master) t t refl (same t) in
      elim (Bool-cases (master == 0)) [
        | inl e ↦ rw e (same t)
        | inr e ↦
            rw (e, (masters at (rtnl_link_get master ∷ t) name link here held e).1)
              (quiet-Keeps env r 0 rtnl_link_put t (rtnl_link_get master ∷ t) refl asked)
      ]

  make_interface-Leaves :
      (name : CStr) (link : Link) (t : Trace)
      → IsHeld t link
      → Returns (λ _ u. Keeps env r 0 t u) (make_interface env name link t)
  unfolding make_interface
  make_interface-Leaves name link t held =
      Returns-bind (λ _ u. Keeps env r 0 t u × (cache_of u ≡ cache_of t)) (λ _ u. Keeps env r 0 t u)
        (get_interface_speed env name) _ t
        (Returns-both _ _ (get_interface_speed env name t) (get_interface_speed-Leaves name t)
          (get_interface_speed-cache_of env name t))
        (λ speed u (x, here).
          Returns-bind (λ _ v. Keeps env r 0 u v) (λ _ v. Keeps env r 0 t v)
            (get_master_name env link.master) _ u (get_master_name-Leaves t link u held here)
            (λ _ v y. Keeps-trans env r 0 0 t u v x y))

  add_link-Leaves :
      (interfaces : Interfaces) (name : CStr) (link : Option Link) (t : Trace)
      → env.link_get_by_name t name ≡ link
      → Returns (λ _ u. Keeps env r 0 t u) (add_link env lib interfaces name link t)
  unfolding add_link
  add_link-Leaves interfaces name none t held = quiet-Keeps env r 0 rtnl_link_put t t refl (same t)
  add_link-Leaves interfaces name (some link) t held =
      elim (Bool-cases (link.arptype == loopback)) [
        | inl e ↦ rw e (quiet-Keeps env r 0 rtnl_link_put t t refl (same t))
        | inr e ↦ rw e (
            Returns-bind (λ _ u. Keeps env r 0 t u) (λ _ u. Keeps env r 0 t u)
              (make_interface env name link) _ t (make_interface-Leaves name link t (name, held))
              (λ _ u x. quiet-Keeps env r 0 rtnl_link_put t u refl x))
      ]

  collect_round-Leaves :
      (interfaces : Interfaces) (entry : ℕ × CStr)
      → Leaves env r 0 (collect_round env lib interfaces entry)
  unfolding collect_round
  collect_round-Leaves interfaces (index, name) t =
      let asked = rtnl_link_get_by_name name ∷ t in
      let step = quiet-Keeps env r 0 (rtnl_link_get_by_name name) t t refl (same t) in
      elim (Bool-cases (is_switch_port name)) [
        | inr e ↦ rw e (same t)
        | inl e ↦ rw e (
            Returns-mono (λ _ u. Keeps env r 0 asked u) (λ _ u. Keeps env r 0 t u)
              (add_link env lib interfaces name (env.link_get_by_name asked name) asked)
              (λ _ u x. Keeps-trans env r 0 0 t asked u step x)
              (add_link-Leaves interfaces name (env.link_get_by_name asked name) asked refl))
      ]

  -- Where the master of a link of a cache is a link of that cache, `collect_interfaces` returns,
  -- whatever else fails, and has given back each netlink socket, cache of links and context that it
  -- took.
  pub collect_interfaces-Keeps :
      (interfaces : Interfaces) (t : Trace)
      → Returns (λ _ u. Keeps env r 0 t u) (collect_interfaces env lib interfaces t)
  unfolding collect_interfaces
  collect_interfaces-Keeps interfaces t =
      let start = if_nameindex ∷ t in
      let step = quiet-Keeps env r 0 if_nameindex t t refl (same t) in
      let entries = named (env.if_nameindex start) in
      let body = fold_each entries interfaces (collect_round env lib) in
      Returns-mono (λ _ u. Keeps env r 0 start u) (λ _ u. Keeps env r 0 t u)
        (with_link_cache env (pure interfaces) (pure interfaces) body (pure tt) start)
        (λ _ u x. Keeps-trans env r 0 0 t start u step x)
        (with_link_cache_keeps env r 0 (pure interfaces) (pure interfaces) body (pure tt)
          (λ u. same u) (λ u. same u)
          (λ u.
            fold_each-Returns (λ _ v. Keeps env r 0 u v) (collect_round env lib)
              (λ entry s v x.
                Returns-mono _ _ (collect_round env lib s entry v)
                  (λ _ w y. Keeps-trans env r 0 0 u v w x y) (collect_round-Leaves s entry v))
              entries interfaces u (same u))
          (λ u. same u) start)

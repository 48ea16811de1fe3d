-- ===== src/Interface/Names/Known.antt =====
-- interface.c, get_interface_names as the providers call it: the names that they go through, and
-- that nothing is published and no context kept meanwhile.
use tsn.Base.{ℕ, ◌≡◌, refl, arith, true, none, some, List, CStr, Option, [], ◌∷◌}
use tsn.Runtime.{
  Env, Trace, Call, Link, if_nameindex, rtnl_link_alloc_cache, nl_connect, nl_socket_alloc,
}
use tsn.Runtime.Containers.{Containers}
use tsn.Runtime.Footprint.{Only, Grows-IsOrder, Grows-call, Returns-Only}
use tsn.Runtime.Laws.{Returns, Returns-mono}
use tsn.Runtime.Netlink.{named}
use tsn.Runtime.Netlink.Laws.{is_filled}
use tsn.Runtime.Records.{nodes, context, taken, given, Keeps}
use tsn.Interface.Names.{Names, get_interface_names}
use tsn.Interface.Names.Footprint.{reads_links, get_interface_names-Always}
use tsn.Interface.Names.Laws.{AllLinked, wanted, get_interface_names-fill}
use tsn.Interface.Names.Threads.{fill}

reads_links-nodes : (c : Call) (t : Trace) → reads_links c ≡ true → nodes (c ∷ t) ≡ nodes t
reads_links-nodes c t h = ground arith

reads_links-taken :
    (env : Env) (c : Call) (t : Trace)
    → reads_links c ≡ true
    → taken env context (c ∷ t) ≡ taken env context t
reads_links-taken env c t h = ground arith

reads_links-given :
    (c : Call) (t : Trace) → reads_links c ≡ true → given context (c ∷ t) ≡ given context t
reads_links-given c t h = ground arith

module _ (env : Env) (lib : Containers) (links : CStr → Option Link) where
  -- What `if_nameindex` gives where the names are still to be listed.
  abbrev pub entries_at : Trace → List (ℕ × CStr)
  entries_at t =
      named
        (env.if_nameindex (if_nameindex ∷ rtnl_link_alloc_cache ∷ nl_connect ∷ nl_socket_alloc ∷ t))

  -- The names that a provider goes through: those that are known, or those of the kernel's ports.
  abbrev pub names_at : Names → Trace → List CStr
  names_at none t = fill lib [] (wanted links (entries_at t))
  names_at (some names) t = names

  -- Where names are to be listed, the cache can be filled and each port has a link in it.
  abbrev pub CanName : Names → Trace → Type 0
  CanName none t = (is_filled env t ≡ true) × AllLinked links (entries_at t)
  CanName (some names) t = Unit

  abbrev pub Named : Names → Trace → List CStr × Names → Trace → Type 0
  Named static t r u =
      (r ≡ (names_at static t, some (names_at static t)))
      × (nodes u ≡ nodes t)
      × Keeps env context 0 t u

  names-Only : (static : Names) → Only reads_links (get_interface_names env lib static)
  names-Only static =
      get_interface_names-Always env lib (Grows-IsOrder reads_links) (Grows-call reads_links) static

  pub get_interface_names-Named :
      ((t : Trace) (name : CStr) → env.link_get_by_name t name ≡ links name)
      → (static : Names) (t : Trace) → CanName static t
      → Returns (Named static t) (get_interface_names env lib static t)
  unfolding get_interface_names
  get_interface_names-Named reads (some names) t h = (refl, refl, omega arith)
  get_interface_names-Named reads none t (filled, linked) =
      Returns-mono _ _ (get_interface_names env lib none t)
        (λ r u (((e, n), a), g). (e, n, omega (arith, a, g)))
        (Returns-Only _ (given context) reads_links (get_interface_names env lib none)
          reads_links-given (names-Only none) t
          (Returns-Only _ (taken env context) reads_links (get_interface_names env lib none)
            (reads_links-taken env) (names-Only none) t
            (Returns-Only _ nodes reads_links (get_interface_names env lib none) reads_links-nodes
              (names-Only none) t
              (rw filled at (get_interface_names-fill env lib links reads t linked).1))))

-- ===== src/Interface/Providers/Laws.antt =====
-- interface.c: what the two providers publish, and the context that they hold.
use tsn.Base.{
  ◌≡◌, refl, sym, ap, ◌∙◌, ◌++◌, subst, arith, true, false, Bool-cases, inl, inr, Option, some,
  List, [], ◌∷◌, All, CStr, if◌then◌else◌,
}
use tsn.Runtime.{
  M, Env, Trace, Link, sr_acquire_context, sr_release_context, fold_each, nl_socket_alloc,
  nl_connect, rtnl_link_alloc_cache, run, pure, ◌>>=◌, ◌>>◌,
}
use tsn.Runtime.Containers.{Containers}
use tsn.Runtime.Laws.{Returns, Returns-bind, Returns-mono}
use tsn.Runtime.Netlink.Laws.{
  is_allocated, is_connected, is_filled, with_link_cache_filled, with_link_cache_unfilled,
}
use tsn.Runtime.Netlink.{with_link_cache}
use tsn.Runtime.Records.{nodes, context, Keeps}
use tsn.Utils.Clock.{CTime}
use tsn.Interface.Names.{Names, get_interface_names}
use tsn.Interface.Names.Known.{CanName, Named, names_at, get_interface_names-Named}
use tsn.Interface.Providers.{
  statistics_round, oper_status_round, statistics_body, oper_status_body,
  interface_statistics_provider, interface_oper_status_provider,
}
use tsn.Interface.Providers.Nodes.{
  Statistics, OperStates, statistics_round-Made, oper_status_round-Made,
}
use tsn.Runtime.Trees.{Node, Made, Extends, fold_each-Made, units-All}

-- The trace when the cache of a provider is filled.
abbrev pub opened : Trace → Trace
opened t = rtnl_link_alloc_cache ∷ nl_connect ∷ nl_socket_alloc ∷ sr_acquire_context ∷ t

module _ (env : Env) (clock : CTime) (lib : Containers) where
  -- What the cache holds, and that it is read again and again with the same answer.
  module _ (links : CStr → Option Link)
      (reads : (t : Trace) (name : CStr) → env.link_get_by_name t name ≡ links name) where
    -- What both providers do with the cache: a loop over the names, known or listed first.
    loop_over_names :
        {S : Type 0} (R : S → List CStr → List Node → Type 0) (P : CStr → Type 0)
        (round : S → CStr → M S) (s0 : S)
        → ((s : S) → R s [] [])
        → ((name : CStr) (s : S) (t : Trace)
            → P name
            → Returns (Extends env R name s t) (round s name t))
        → (static : Names) (t : Trace) → CanName env lib links static t
        → All P (names_at env lib links static t)
        → Returns
            (λ r u.
              (r ≡ some (names_at env lib links static t))
              × ((made : List Node) × R s0 (names_at env lib links static t) made
                  × Made env made t u))
            ((do
              (names, static') ← get_interface_names env lib static
              fold_each names s0 round
              pure static')
              t)
    loop_over_names R P round s0 stop step static t can ps =
        Returns-bind (Named env lib links static t) _ (get_interface_names env lib static) _ t
          (get_interface_names-Named env lib links reads static t can)
          (λ r v (e, n, k).
            let names = ap (λ p. p.0) e in
            Returns-bind (λ _ u. (made : List Node) × R s0 r.0 made × Made env made v u) _
              (fold_each r.0 s0 round) _ v
              (fold_each-Made env R P round stop step r.0 s0 v (subst (All P) (sym names) ps))
              (λ _ u (made, published, m). (
                ap (λ p. p.1) e,
                (
                  made,
                  subst (λ l. R s0 l made) names published,
                  (m.0 ∙ ap (λ l. l ++ made) n, omega (arith, m.1, k)),
                ),
              )))

    -- Where the cache of links is filled and gives each name one link or none however often it is
    -- read, the provider of the counters returns, be the names known or still to be listed. It has
    -- made the nodes of every name that has a link in the cache, in order, the first of them with a
    -- new tree, and has released its context. The names are those that were known, or the set of
    -- the ports whose link is no loopback, CAN or SIT, where a cache for listing them is filled and
    -- has a link for each port; these it keeps.
    pub interface_statistics_provider-Statistics :
        (static : Names) (t : Trace)
        → is_filled env (sr_acquire_context ∷ t) ≡ true
        → CanName env lib links static (opened t)
        → Returns
            (λ r u.
              let names = names_at env lib links static (opened t) in
              (r ≡ some names)
              × ((made : List Node) × Statistics links clock true names made × Made env made t u))
            (interface_statistics_provider env clock lib static t)
    unfolding interface_statistics_provider statistics_body
    interface_statistics_provider-Statistics static t filled can =
        with_link_cache_filled env _ _ _ _ (run sr_release_context) (sr_acquire_context ∷ t) filled
          (Returns-mono _ _ (statistics_body env clock lib static (opened t))
            (λ _ u (e, (made, published, m)). (e, (made, published, (m.0, omega (arith, m.1)))))
            (loop_over_names (Statistics links clock) (λ _. Unit {0})
              (statistics_round env clock lib) true (λ _. Statistics.end)
              (λ name s u _. statistics_round-Made env clock lib links reads name s u) static
              (opened t) can (units-All (names_at env lib links static (opened t)))))

    -- Where the cache of links is filled and gives each name one link however often it is read, the
    -- provider of the states returns, be the names known or still to be listed. It has made a node
    -- for each name, in order, the first with a new tree: the state of the link, or, for a number
    -- that the program does not know, the state published for the name before it. It has released
    -- its context. The names are those that were known, or the set of the ports whose link is no
    -- loopback, CAN or SIT, where a cache for listing them is filled; these it keeps.
    pub interface_oper_status_provider-OperStates :
        (static : Names) (t : Trace)
        → is_filled env (sr_acquire_context ∷ t) ≡ true
        → CanName env lib links static (opened t)
        → All
            (λ name. (link : Link) × (links name ≡ some link))
            (names_at env lib links static (opened t))
        → Returns
            (λ r u.
              let names = names_at env lib links static (opened t) in
              (r ≡ some names)
              × ((made : List Node) × OperStates links (true, []) names made × Made env made t u))
            (interface_oper_status_provider env clock lib static t)
    unfolding interface_oper_status_provider oper_status_body
    interface_oper_status_provider-OperStates static t filled can linked =
        with_link_cache_filled env _ _ _ _ (run sr_release_context) (sr_acquire_context ∷ t) filled
          (Returns-mono _ _ (oper_status_body env clock lib static (opened t))
            (λ _ u (e, (made, published, m)). (e, (made, published, (m.0, omega (arith, m.1)))))
            (loop_over_names (OperStates links) (λ name. (link : Link) × (links name ≡ some link))
              (oper_status_round env clock lib) (true, []) (λ _. OperStates.end)
              (λ name s u h. oper_status_round-Made env clock lib links reads name s u h) static
              (opened t) can linked))

  -- A provider that has published nothing: it keeps its context where the socket was not connected.
  abbrev pub Unpublished : Names → Trace → Names → Trace → Type 0
  Unpublished static t r u =
      (r ≡ static)
      × (nodes u ≡ nodes t)
      × Keeps env context (if is_connected env (sr_acquire_context ∷ t) then 0 else 1) t u

  unpublished :
      (static : Names) (body : M Names) (t : Trace)
      → is_filled env (sr_acquire_context ∷ t) ≡ false
      → Returns (Unpublished static t) (
          with_link_cache env
            (pure static)
            (pure static)
            body
            (run sr_release_context)
            (sr_acquire_context ∷ t))
  unpublished static body t unfilled =
      rw
        (with_link_cache_unfilled env static body sr_release_context (sr_acquire_context ∷ t)
          unfilled)
        (elim (Bool-cases (is_connected env (sr_acquire_context ∷ t))) [
          | inl e ↦ rw e (refl, refl, omega arith)
          | inr e ↦ elim (Bool-cases (is_allocated env (sr_acquire_context ∷ t))) [
            | inl i ↦ rw (e, i) (refl, refl, omega arith)
            | inr i ↦ rw (e, i) (refl, refl, omega arith)
          ]
        ])

  -- Where the socket cannot be had or connected, or the cache cannot be filled, both providers
  -- return, have made no node, and leave the variable of the names as it was. They have released
  -- their context if the socket was connected; otherwise they hold it still.
  pub interface_providers_unfilled :
      (static : Names) (t : Trace)
      → is_filled env (sr_acquire_context ∷ t) ≡ false
      → Returns (Unpublished static t) (interface_statistics_provider env clock lib static t)
        × Returns (Unpublished static t) (interface_oper_status_provider env clock lib static t)
  unfolding interface_statistics_provider interface_oper_status_provider
  interface_providers_unfilled static t unfilled = (
    unpublished static (statistics_body env clock lib static) t unfilled,
    unpublished static (oper_status_body env clock lib static) t unfilled,
  )

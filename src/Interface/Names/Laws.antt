-- ===== src/Interface/Names/Laws.antt =====
-- interface.c, get_interface_names: the names that it gives, and what it keeps.
use tsn.Base.{
  ℕ, ◌≡◌, refl, sym, ap, ◌∙◌, true, Bool-cases, inl, inr, Option, none, some, List, [], ◌∷◌, ◌++◌,
  concat_map, Cases, Cases_intro, subst, CStr, if◌then◌else◌,
}
use tsn.Runtime.{
  Env, Trace, Link, Result, fault, done, exited, exit, pure, if_nameindex, rtnl_link_get_by_name,
  fold_each, rtnl_link_alloc_cache, nl_connect, nl_socket_alloc, nl_socket_free, nl_close,
}
use tsn.Runtime.Containers.{Containers}
use tsn.Runtime.Laws.{Returns, Returns-bind, Returns-mono}
use tsn.Runtime.Netlink.{with_link_cache, named, is_switch_port}
use tsn.Runtime.Netlink.Laws.{
  is_connected, is_filled, with_link_cache_filled, with_link_cache_early, with_link_cache_no_cache,
}
use tsn.Interface.Names.{Names, is_skipped, name_round, list_names, get_interface_names}
use tsn.Interface.Names.Threads.{fill}

-- The names of ports whose link is not of a type that is skipped.
abbrev of_link : Option Link → CStr → List CStr
of_link none name = []
of_link (some link) name = if is_skipped link.arptype then [] else name ∷ []

abbrev pub wanted_of : (CStr → Option Link) → ℕ × CStr → List CStr
wanted_of links (index, name) = if is_switch_port name then of_link (links name) name else []

abbrev pub wanted : (CStr → Option Link) → List (ℕ × CStr) → List CStr
wanted links entries = concat_map (wanted_of links) entries

fill-append :
    (lib : Containers) (names xs ys : List CStr)
    → fill lib names (xs ++ ys) ≡ fill lib (fill lib names xs) ys
fill-append lib names [] ys = refl
fill-append lib names (x ∷ xs) ys = fill-append lib (lib.sset_add names x) xs ys

-- Each port has a link.
abbrev pub AllLinked : (CStr → Option Link) → List (ℕ × CStr) → Type 0
AllLinked links [] = Unit
AllLinked links ((index, name) ∷ entries) =
    (is_switch_port name ≡ true → (link : Link) × (links name ≡ some link))
    × AllLinked links entries

-- The run ended in `exit`.
abbrev pub Ended : {A : Type 0} → Result A → Type 0
Ended (done a t) = ⊥
Ended (fault t) = ⊥
Ended (exited t) = Unit

-- The set is the result, and is kept.
abbrev kept : Result (List CStr) → Result (List CStr × Names)
kept r = elim r [
  | done names u ↦ done (names, some names) u
  | fault u ↦ fault u
  | exited u ↦ exited u
]

module _ (env : Env) (lib : Containers) (links : CStr → Option Link)
    (reads : (t : Trace) (name : CStr) → env.link_get_by_name t name ≡ links name) where
  name_round-fill :
      (entry : ℕ × CStr) (names : List CStr) (t : Trace)
      → AllLinked links (entry ∷ [])
      → Returns
          (λ r _. r ≡ fill lib names (wanted_of links entry))
          (name_round env lib names entry t)
  unfolding name_round
  name_round-fill (index, name) names t (h, _) = elim (Bool-cases (is_switch_port name)) [
    | inr e ↦ rw e refl
    | inl e ↦
        let (link, i) = h e in
        let found : env.link_get_by_name (rtnl_link_get_by_name name ∷ t) name ≡ some link =
          reads (rtnl_link_get_by_name name ∷ t) name ∙ i in
        elim (Bool-cases (is_skipped link.arptype)) [
          | inl s ↦ rw (e, found, i, s) refl
          | inr s ↦ rw (e, found, i, s) refl
        ]
  ]

  fold_each-fill :
      (entries : List (ℕ × CStr)) (names : List CStr) (t : Trace)
      → AllLinked links entries
      → Returns
          (λ r _. r ≡ fill lib names (wanted links entries))
          (fold_each entries names (name_round env lib) t)
  unfolding fold_each
  fold_each-fill [] names t h = refl
  fold_each-fill (entry ∷ entries) names t (h, rest) =
      Returns-bind (λ r _. r ≡ fill lib names (wanted_of links entry))
        (λ r _. r ≡ fill lib names (wanted links (entry ∷ entries)))
        (name_round env lib names entry) (λ s. fold_each entries s (name_round env lib)) t
        (name_round-fill entry names t (h, tt))
        (λ s u e.
          Returns-mono (λ r _. r ≡ fill lib s (wanted links entries))
            (λ r _. r ≡ fill lib names (wanted links (entry ∷ entries)))
            (fold_each entries s (name_round env lib) u)
            (λ r v i.
              i
              ∙ ap (λ l. fill lib l (wanted links entries)) e
              ∙ sym (fill-append lib names (wanted_of links entry) (wanted links entries)))
            (fold_each-fill entries s u rest))

  -- What the trace is where a call of netlink failed.
  abbrev unfilled_trace : Trace → Trace
  unfilled_trace t =
      nl_socket_free ∷ nl_close ∷ rtnl_link_alloc_cache ∷ nl_connect ∷ nl_socket_alloc ∷ t

  -- A set that is known is given as it is. Else, with a cache of links that gives one link however
  -- often a name is read, one for each port at least: where the cache is filled, the result is the
  -- set of the ports whose link is no loopback, CAN or SIT, added in the kernel's order, and it is
  -- kept; where only the cache cannot be filled, the result is the empty set, and that is kept all
  -- the same; and without a connected socket the program ends.
  pub get_interface_names-fill :
      (t : Trace)
      → AllLinked links (
          named (
            env.if_nameindex
              (if_nameindex ∷ rtnl_link_alloc_cache ∷ nl_connect ∷ nl_socket_alloc ∷ t)))
      → ((names : List CStr)
          → get_interface_names env lib (some names) t ≡ done (names, some names) t)
        × Cases
            (is_filled env t)
            (Returns
              (λ r _.
                let all = fill lib [] (
                  wanted links (
                    named (
                      env.if_nameindex (
                        if_nameindex ∷ rtnl_link_alloc_cache ∷ nl_connect ∷ nl_socket_alloc
                        ∷ t)))) in
                r ≡ (all, some all))
              (get_interface_names env lib none t))
            (Cases
              (is_connected env t)
              (get_interface_names env lib none t ≡ done ([], some []) (unfilled_trace t))
              (Ended (get_interface_names env lib none t)))
  unfolding get_interface_names list_names
  get_interface_names-fill t linked =
      let at = rtnl_link_alloc_cache ∷ nl_connect ∷ nl_socket_alloc ∷ t in
      let all = fill lib [] (wanted links (named (env.if_nameindex (if_nameindex ∷ at)))) in
      (
        (λ names. refl),
        Cases_intro (is_filled env t)
            (λ f.
              Returns-bind (λ r _. r ≡ all) (λ r _. r ≡ (all, some all))
                (with_link_cache env exit (pure []) (list_names env lib) (pure tt)) _ t
                (with_link_cache_filled env (λ r _. r ≡ all) _ _ _ (pure tt) t f
                  (fold_each-fill (named (env.if_nameindex (if_nameindex ∷ at))) []
                    (if_nameindex ∷ at) linked))
                (λ r u e. ap (λ l. (l, some l)) e))
            (λ f.
              Cases_intro (is_connected env t)
                (λ c. ap kept (with_link_cache_no_cache env [] exit (list_names env lib) t c f))
                (λ c.
                  subst Ended
                    (sym (
                      ap kept (
                        with_link_cache_early env exit (pure []) (list_names env lib) (pure tt) t
                          c)))
                    tt)),
      )

-- ===== src/Interface/Ips/Laws.antt =====
-- interface.c: `collect_ips` sorts the addresses of the machine by interface.
use tsn.Base.{
  Cases, Cases_intro, ℕ, ◌≡◌, refl, sym, ◌∙◌, true, false, some, [], ◌∷◌, All, CStr, append-nil,
}
use tsn.Runtime.{Env, Trace, getifaddrs, fold_each, done}
use tsn.Runtime.Containers.{Containers, IsLawful}
use tsn.Runtime.Laws.{Returns, Returns-mono, Returns-bind, fold_each-Returns_of}
use tsn.Interface.Collect.{Interfaces}
use tsn.Interface.Ips.Store.{addresses_of, IsValid}
use tsn.Interface.Ips.{Ips, ip_round, collect_ips}
use tsn.Interface.Ips.Rounds.{IsMasked, addresses_in, Loop, ip_round-Loop}

-- No structure and no name.
abbrev pub no_ips : Ips
no_ips = record { store = []; names = [] }

nothing_found :
    (lib : Containers) (k : CStr) (p : ℕ) → IsLawful lib → lib.shash_find_data ℕ [] k ≡ some p → ⊥
nothing_found lib k p lawful found = let e = lawful.shash_find_data-nil ℕ k in cc

module _ (env : Env) (lib : Containers) (interfaces : Interfaces) where
  -- Where `getifaddrs` succeeds: the structures, and the addresses under each name.
  pub collect_ips-Collected :
      IsLawful lib
      → (t : Trace) → All IsMasked (env.ifaddrs (getifaddrs ∷ t))
      → env.succeeds (getifaddrs ∷ t) ≡ true
      → Returns
          (λ r _.
            IsValid lib r.0
            × (r.1 ≡ true)
            × ((k : CStr)
                → addresses_of lib r.0 k
                  ≡ addresses_in env lib interfaces k (env.ifaddrs (getifaddrs ∷ t))))
          (collect_ips env lib interfaces no_ips t)
  unfolding collect_ips addresses_in
  collect_ips-Collected lawful t masks e =
      let es = env.ifaddrs (getifaddrs ∷ t) in
      rw e (
        Returns-bind (Loop env lib interfaces lawful es []) _
          (fold_each es no_ips (ip_round env lib interfaces)) (λ _ _. _) (getifaddrs ∷ t)
          (fold_each-Returns_of IsMasked (Loop env lib interfaces lawful es)
            (ip_round env lib interfaces)
            (λ x next ips u m h. ip_round-Loop env lib interfaces lawful es x next ips u m h) es
            no_ips (getifaddrs ∷ t) masks
            (
              (λ k p found. absurd (nothing_found lib k p lawful found)),
              λ k. rw (lawful.shash_find_data-nil ℕ k),
            ))
          (λ ips u h. (h.0, refl, λ k. sym (append-nil _) ∙ h.1 k)))

  -- Where each address of IPv4 or IPv6 that `getifaddrs` gives has a netmask of 32-bit words: where
  -- it succeeds, `collect_ips` returns true, and under each name stand the addresses of both
  -- families that `getifaddrs` gave for it, in order, if the name is one of the interfaces, and no
  -- other. Each address comes with the prefix that `netmask_prefix` counts. Where `getifaddrs`
  -- fails, it returns false and collects nothing.
  pub collect_ips_lem :
      IsLawful lib
      → (t : Trace) → All IsMasked (env.ifaddrs (getifaddrs ∷ t))
      → Cases
          (env.succeeds (getifaddrs ∷ t))
          (Returns
            (λ r _.
              (r.1 ≡ true)
              × ((k : CStr)
                  → addresses_of lib r.0 k
                    ≡ addresses_in env lib interfaces k (env.ifaddrs (getifaddrs ∷ t))))
            (collect_ips env lib interfaces no_ips t))
          (collect_ips env lib interfaces no_ips t ≡ done (no_ips, false) (getifaddrs ∷ t))
  unfolding collect_ips
  collect_ips_lem lawful t masks =
      Cases_intro (env.succeeds (getifaddrs ∷ t))
        (λ e.
          Returns-mono _ _ (collect_ips env lib interfaces no_ips t) (λ r u h. (h.1, h.2))
            (collect_ips-Collected lawful t masks e))
        (λ e. rw e)

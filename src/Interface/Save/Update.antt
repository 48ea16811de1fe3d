-- ===== src/Interface/Save/Update.antt =====
-- interface.c, update_ips: what it sets, from the answer of getifaddrs to the items in sysrepo.
use mathlib.Core.List.{Mem, mem-map_of_mem, not-mem-nil}
use tsn.Base.{
  Cases, Cases_intro, subst, ℕ, ◌≡◌, ◌≢◌, refl, sym, ap, ◌∙◌, Bool, true, false, Option, none, some,
  List, [], ◌∷◌, ◌++◌, All, CStr, ℤ, concat_map, map,
}
use tsn.Runtime.{Env, Trace, done, getifaddrs, for_each, ◌>>◌}
use tsn.Runtime.Containers.{Containers, IsLawful}
use tsn.Runtime.Laws.{Returns, Returns-bind, Returns-mono}
use tsn.Runtime.Ends.{Returns-if, Returns-done}
use tsn.Runtime.Records.{sets}
use tsn.Interface.{Address, Ip}
use tsn.Interface.Collect.{Interfaces}
use tsn.Interface.Ips.{Ips, fetch, collect_ips}
use tsn.Interface.Ips.Laws.{no_ips, collect_ips-Collected}
use tsn.Interface.Ips.Mtus.{IsMtu, HasMtus, HasMtus-fetch}
use tsn.Interface.Ips.Rounds.{IsMasked, addresses_in}
use tsn.Interface.Ips.Nodes.{IsFound, IsListed, HasNodes, collect_ips-HasNodes}
use tsn.Interface.Ips.Store.{addresses_of, addresses_at, in_structure, IsValid}
use tsn.Interface.Save.{save_ips, ip_destory, update_ips}
use tsn.Interface.Save.Refresh.{refresh_items, IsNode, names-Described}
use tsn.Interface.Save.Addresses.{IsThere, names_items, AllThere, save_ips-sets}

-- From `t` to `u` such items were set, for every name with an address at least, each MTU being the
-- one that the kernel gave of the name when it was asked.
abbrev pub Refreshed : Env → (CStr → List Address) → Trace → Trace → Type 0
Refreshed env addresses t u =
    (mtus : List (CStr × ℤ)) × (sets u ≡ sets t ++ concat_map (refresh_items addresses) mtus)
    × ((k : CStr) → addresses k ≢ [] → Mem k (map (λ (m : CStr × ℤ). m.0) mtus))
    × All (IsMtu env) mtus

-- Nothing is freed and nothing is called.
destroy-Returns :
    (ips : Ips) (names : List (CStr × ℕ)) (t : Trace)
    → AllThere ips.store names
    → Returns (λ _ u. u ≡ t) (for_each names (λ (name, p). ip_destory (fetch ips.store p)) t)
unfolding for_each ip_destory
destroy-Returns ips [] t h = refl
destroy-Returns ips ((name, p) ∷ names) t (here, later) =
    go (destroy-Returns ips names t later) (fetch ips.store p) here
  where
    go :
        Returns (λ _ u. u ≡ t) (for_each names (λ (name, p). ip_destory (fetch ips.store p)) t)
        → (found : Option Ip) → IsThere found
        → Returns
            (λ _ u. u ≡ t)
            ((ip_destory found >> for_each names (λ (name, p). ip_destory (fetch ips.store p))) t)
    go rest none h = absurd h
    go rest (some ip) h = rest

module _ (env : Env) (lib : Containers) (addresses : CStr → List Address) (ips : Ips) where
  holds-IsNode :
      IsValid lib ips
      → IsFound lib ips.names
      → HasMtus env ips.store
      → ((k : CStr) → addresses_of lib ips k ≡ addresses k)
      → (node : CStr × ℕ) → Mem node ips.names
      → IsNode env ips.store addresses node
  holds-IsNode valid found mtus holds (name, p) m =
      let at = found (name, p) m in
      let (ip, there, named) = valid name p at in
      (
        ip,
        there,
        named,
        sym (ap (addresses_at ips.store) at ∙ ap in_structure there) ∙ holds name,
        subst (λ k. IsMtu env (k, ip.mtu)) named (HasMtus-fetch env ips.store p ip mtus there),
      )

  listed_in :
      IsListed lib ips.names
      → ((k : CStr) → addresses_of lib ips k ≡ addresses k)
      → (k : CStr) → addresses k ≢ []
      → Mem k (map (λ (n : CStr × ℕ). n.0) ips.names)
  listed_in listed holds k some_of = go (lib.shash_find_data ℕ ips.names k) refl
    where
      go :
          (found : Option ℕ)
          → lib.shash_find_data ℕ ips.names k ≡ found
          → Mem k (map (λ (n : CStr × ℕ). n.0) ips.names)
      go (some p) e = mem-map_of_mem (λ (n : CStr × ℕ). n.0) (listed k p e)
      go none e = absurd (some_of (sym (holds k) ∙ ap (addresses_at ips.store) e))

  -- Saving and releasing structures whose map has all of them.
  save_and_destroy :
      (t u : Trace)
      → IsValid lib ips
      → ((k : CStr) → addresses_of lib ips k ≡ addresses k)
      → HasNodes env lib (sets t) ips u
      → Returns
          (λ _ v. Refreshed env addresses t v)
          ((save_ips ips >> for_each ips.names (λ (name, p). ip_destory (fetch ips.store p))) u)
  save_and_destroy t u valid holds ((found, listed), same, asked) =
      let (mtus, items, keys, there, told) =
        names-Described env ips.store addresses ips.names (holds-IsNode valid found asked holds) in
      Returns-bind (λ _ v. sets v ≡ sets u ++ names_items ips.store ips.names) _ (save_ips ips) _ u
        (save_ips-sets ips u there)
        (λ _ v e.
          Returns-mono (λ _ w. w ≡ v) (λ _ w. Refreshed env addresses t w) _
            (λ _ w i. (
              mtus,
              ap sets i
                  ∙ e
                  ∙ ap (λ l. l ++ names_items ips.store ips.names) same
                  ∙ ap (λ l. sets t ++ l) items,
              (λ k some_of. subst (Mem k) (sym keys) (listed_in listed holds k some_of)),
              told,
            ))
            (destroy-Returns ips ips.names v there))

no_ips-HasNodes :
    (env : Env) (lib : Containers) (t : Trace) → IsLawful lib → HasNodes env lib (sets t) no_ips t
no_ips-HasNodes env lib t lawful = (
  (
    (λ node m. absurd (not-mem-nil m)),
    (λ k p h. let e = lawful.shash_find_data-nil ℕ k in absurd (cc e)),
  ),
  refl,
  tt,
)

module _ (env : Env) (lib : Containers) (interfaces : Interfaces) where
  collect_failed :
      (t : Trace)
      → env.succeeds (getifaddrs ∷ t) ≡ false
      → collect_ips env lib interfaces no_ips t ≡ done (no_ips, false) (getifaddrs ∷ t)
  unfolding collect_ips
  collect_failed t e = rw e refl

  failed-sets :
      (t : Trace)
      → env.succeeds (getifaddrs ∷ t) ≡ false
      → Returns (λ _ u. sets u ≡ sets t) (update_ips env lib interfaces t)
  unfolding update_ips save_ips for_each
  failed-sets t e =
      Returns-done (λ _ u. sets u ≡ sets t) (collect_ips env lib interfaces no_ips) _ t
        (no_ips, false) (getifaddrs ∷ t) (collect_failed t e) refl

  -- Where each address of IPv4 or IPv6 that `getifaddrs` gives has a netmask of 32-bit words,
  -- `update_ips` returns, whatever sysrepo answers. Where `getifaddrs` succeeds, it has set the MTU
  -- of some names, each as the kernel gave it when it was asked or -1 where it gave none, and after
  -- that of each the prefix length of exactly the addresses that `getifaddrs` gave for the name, in
  -- order, if it is a known interface; every name with such an address is among them. Where
  -- `getifaddrs` fails, it has set nothing.
  pub update_ips-Refreshed :
      IsLawful lib
      → (t : Trace) → All IsMasked (env.ifaddrs (getifaddrs ∷ t))
      → Cases
          (env.succeeds (getifaddrs ∷ t))
          (Returns
            (λ _ u.
              Refreshed env
                (λ k. addresses_in env lib interfaces k (env.ifaddrs (getifaddrs ∷ t)))
                t
                u)
            (update_ips env lib interfaces t))
          (Returns (λ _ u. sets u ≡ sets t) (update_ips env lib interfaces t))
  unfolding update_ips
  update_ips-Refreshed lawful t masks =
      let addresses : CStr → List Address =
        λ k. addresses_in env lib interfaces k (env.ifaddrs (getifaddrs ∷ t)) in
      Cases_intro (env.succeeds (getifaddrs ∷ t))
        (λ e.
          Returns-bind
            (λ (r : Ips × Bool) u.
              (IsValid lib r.0 × (r.1 ≡ true) × ((k : CStr) → addresses_of lib r.0 k ≡ addresses k))
              × HasNodes env lib (sets t) r.0 u)
            (λ _ u. Refreshed env addresses t u) (collect_ips env lib interfaces no_ips) _ t
            (Returns-if _ (λ r u. HasNodes env lib (sets t) r.0 u) _
              (collect_ips-Collected env lib interfaces lawful t masks e)
              (collect_ips-HasNodes env lib lawful (sets t) interfaces no_ips t
                (no_ips-HasNodes env lib t lawful)))
            (λ (ips, got) u ((valid, _, holds), nodes).
              save_and_destroy env lib addresses ips t u valid holds nodes))
        (λ e. failed-sets t e)

-- ===== src/Interface/Save/Transactions.antt =====
-- interface.c: the applies that discard end a transaction, and the one of save_ips does not.
use tsn.Base.{
  ℕ, CStr, Option, some, none, ◌++◌, concat_map, wrap, u16_mod, ◌≡◌, false, Bool-cases, inl, inr,
  List, [], ◌∷◌,
}
use tsn.Runtime.{for_each, deref, ◌>>=◌, u8, u16, sr_set_item, Env, Trace, sr_apply_changes}
use tsn.Runtime.Laws.{Returns, Returns-bind, Returns-mono}
use tsn.Runtime.Records.{set_all}
use tsn.Runtime.Session.{Edit, Sysrepo, IsLawful, Accepts}
use tsn.Runtime.Session.Laws.{
  edits_of, set_all-Takes, apply_failed-Takes, Takes-items, for_each-Takes, start-Takes, pending_at,
  Takes, Transacts, apply-Transacts, discard-Transacts,
}
use tsn.Interface.{Ip, Address}
use tsn.Interface.Ips.{Ips, fetch}
use tsn.Interface.Save.Addresses.{
  address_items, ip_items, pointed_items, IsThere, names_items, AllThere,
}
use tsn.Interface.Save.{
  interface_path, address_path, save_address, save_ip, save_ips, apply_or_discard,
}

module _ (sys : Sysrepo) (lawful : IsLawful sys) (env : Env) (accepts : Accepts env)
    (s : sys.State) where
  -- What was taken up since nothing was pending is one transaction.
  pub apply_or_discard-Transacts :
      (edits : List Edit) (t u : Trace)
      → pending_at sys env s t ≡ []
      → Takes sys env s edits t u
      → Returns (λ _ v. Transacts sys env s (edits ∷ []) t v) (apply_or_discard env u)
  unfolding apply_or_discard
  apply_or_discard-Transacts edits t u h k =
      elim (Bool-cases (env.succeeds (sr_apply_changes ∷ u))) [
        | inl e ↦ rw e (apply-Transacts sys lawful env accepts s edits t u h k e)
        | inr e ↦ rw e (discard-Transacts sys lawful env accepts s edits t u k e)
      ]

  save_address-Takes :
      ((t : Trace) → env.succeeds (sr_apply_changes ∷ t) ≡ false)
      → (name : CStr) (a : Address) (t : Trace)
      → Returns
          (λ _ u. Takes sys env s (edits_of (address_items name a)) t u)
          (save_address name a t)
  unfolding save_address
  save_address-Takes fails name a t =
      let set = sr_set_item (address_path name a) (u8 a.prefix) ∷ t in
      apply_failed-Takes sys lawful env accepts s (edits_of (address_items name a)) t set
        (set_all-Takes sys lawful env accepts s (address_items name a) t) (fails set)

  save_ip-Takes :
      ((t : Trace) → env.succeeds (sr_apply_changes ∷ t) ≡ false)
      → (ip : Ip) (t : Trace)
      → Returns (λ _ u. Takes sys env s (edits_of (ip_items ip)) t u) (save_ip ip t)
  unfolding save_ip
  save_ip-Takes fails ip t =
      let mtu = (interface_path ip.name "ietf-ip:ipv4/mtu", u16 (wrap u16_mod ip.mtu)) ∷ [] in
      let all = concat_map (address_items ip.name) ip.addresses in
      Returns-mono (λ _ u. Takes sys env s (edits_of all) (set_all mtu t) u)
        (λ _ u. Takes sys env s (edits_of (ip_items ip)) t u)
        (for_each ip.addresses (save_address ip.name) (set_all mtu t))
        (λ _ u k.
          Takes-items sys lawful env accepts s mtu all t (set_all mtu t) u
            (set_all-Takes sys lawful env accepts s mtu t) k)
        (for_each-Takes sys lawful env accepts s (address_items ip.name) (save_address ip.name)
          (save_address-Takes fails ip.name) ip.addresses (set_all mtu t))

  pointed-Takes :
      ((t : Trace) → env.succeeds (sr_apply_changes ∷ t) ≡ false)
      → (found : Option Ip) (t : Trace) → IsThere found
      → Returns
          (λ _ u. Takes sys env s (edits_of (pointed_items found)) t u)
          ((deref found >>= save_ip) t)
  pointed-Takes fails none t h = absurd h
  pointed-Takes fails (some ip) t h = save_ip-Takes fails ip t

  names-Takes :
      ((t : Trace) → env.succeeds (sr_apply_changes ∷ t) ≡ false)
      → (store : List Ip) (names : List (CStr × ℕ)) (t : Trace) → AllThere store names
      → Returns
          (λ _ u. Takes sys env s (edits_of (names_items store names)) t u)
          (for_each names (λ (name, p). deref (fetch store p) >>= save_ip) t)
  unfolding for_each
  names-Takes fails store [] t h = start-Takes sys lawful env accepts s t
  names-Takes fails store ((name, p) ∷ names) t (here, later) =
      let items = pointed_items (fetch store p) in
      let rest = names_items store names in
      Returns-bind (λ _ u. Takes sys env s (edits_of items) t u)
        (λ _ v. Takes sys env s (edits_of (items ++ rest)) t v) (deref (fetch store p) >>= save_ip)
        _ t (pointed-Takes fails (fetch store p) t here)
        (λ _ u k.
          Returns-mono (λ _ v. Takes sys env s (edits_of rest) u v)
            (λ _ v. Takes sys env s (edits_of (items ++ rest)) t v)
            (for_each names (λ (name, p). deref (fetch store p) >>= save_ip) u)
            (λ _ v l. Takes-items sys lawful env accepts s items rest t u v k l)
            (names-Takes fails store names u later))

  -- With edits that sysrepo accepts, where no apply succeeds and every node of the map points to a
  -- structure, `save_ips` returns with nothing committed and all its edits still held by the
  -- session: no failed apply is followed by a discard.
  pub save_ips-Takes :
      ((t : Trace) → env.succeeds (sr_apply_changes ∷ t) ≡ false)
      → (ips : Ips) (t : Trace) → AllThere ips.store ips.names
      → Returns
          (λ _ u. Takes sys env s (edits_of (names_items ips.store ips.names)) t u)
          (save_ips ips t)
  unfolding save_ips
  save_ips-Takes fails ips t h = names-Takes fails ips.store ips.names t h

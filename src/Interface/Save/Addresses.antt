-- ===== src/Interface/Save/Addresses.antt =====
-- interface.c, save_ips: the items that are set for the addresses.
use tsn.Base.{
  ℕ, Option, none, some, List, [], ◌∷◌, ◌++◌, append_assoc, append-nil, ◌≡◌, refl, sym, ap, ◌∙◌,
  CStr, concat_map, wrap, u16_mod,
}
use tsn.Runtime.{Trace, Val, u8, u16, for_each, deref, sr_set_item, ◌>>=◌}
use tsn.Runtime.Laws.{Returns, Returns-bind, Returns-mono, for_each_adds}
use tsn.Runtime.Records.{sets}
use tsn.Interface.{Ip, Address}
use tsn.Interface.Ips.{Ips, fetch}
use tsn.Interface.Save.{interface_path, address_path, save_address, save_ip, save_ips}

-- What is set for an address, and for a structure with all its addresses.
abbrev pub address_items : CStr → Address → List (CStr × Val)
address_items name a = (address_path name a, u8 a.prefix) ∷ []

abbrev pub ip_items : Ip → List (CStr × Val)
ip_items ip =
    (interface_path ip.name "ietf-ip:ipv4/mtu", u16 (wrap u16_mod ip.mtu))
    ∷ concat_map (address_items ip.name) ip.addresses

-- What is set for what a node of the map points to.
abbrev pub pointed_items : Option Ip → List (CStr × Val)
pointed_items none = []
pointed_items (some ip) = ip_items ip

abbrev pub IsThere : Option Ip → Type 0
IsThere none = ⊥
IsThere (some ip) = Unit

-- The nodes of a map, and the structures that they point to.
abbrev pub names_items : List Ip → List (CStr × ℕ) → List (CStr × Val)
names_items store [] = []
names_items store ((name, p) ∷ names) = pointed_items (fetch store p) ++ names_items store names

abbrev pub AllThere : List Ip → List (CStr × ℕ) → Type 0
AllThere store [] = Unit
AllThere store ((name, p) ∷ names) = IsThere (fetch store p) × AllThere store names

save_ip-sets :
    (ip : Ip) (t : Trace) → Returns (λ _ u. sets u ≡ sets t ++ ip_items ip) (save_ip ip t)
unfolding save_ip save_address
save_ip-sets ip t =
    let path = interface_path ip.name "ietf-ip:ipv4/mtu" in
    let mtu = u16 (wrap u16_mod ip.mtu) in
    let start = sr_set_item path mtu ∷ t in
    let all = concat_map (address_items ip.name) ip.addresses in
    Returns-mono (λ _ u. sets u ≡ sets start ++ all) (λ _ u. sets u ≡ sets t ++ ip_items ip)
      (for_each ip.addresses (save_address ip.name) start)
      (λ _ u e. e ∙ append_assoc (sets t) ((path, mtu) ∷ []) all)
      (for_each_adds sets (address_items ip.name) (save_address ip.name) (λ a u. refl) ip.addresses
        start)

pointed-sets :
    (found : Option Ip) (t : Trace)
    → IsThere found
    → Returns (λ _ u. sets u ≡ sets t ++ pointed_items found) ((deref found >>= save_ip) t)
pointed-sets none t h = absurd h
pointed-sets (some ip) t h = save_ip-sets ip t

names-sets :
    (store : List Ip) (names : List (CStr × ℕ)) (t : Trace)
    → AllThere store names
    → Returns
        (λ _ u. sets u ≡ sets t ++ names_items store names)
        (for_each names (λ (name, p). deref (fetch store p) >>= save_ip) t)
unfolding for_each
names-sets store [] t h = sym (append-nil (sets t))
names-sets store ((name, p) ∷ names) t (here, later) =
    Returns-bind (λ _ u. sets u ≡ sets t ++ pointed_items (fetch store p)) _
      (deref (fetch store p) >>= save_ip) _ t (pointed-sets (fetch store p) t here)
      (λ _ u e.
        Returns-mono (λ _ v. sets v ≡ sets u ++ names_items store names)
          (λ _ v. sets v ≡ sets t ++ names_items store ((name, p) ∷ names))
          (for_each names (λ (name, p). deref (fetch store p) >>= save_ip) u)
          (λ _ v k. k ∙ ap (λ l. l ++ names_items store names) e ∙ append_assoc (sets t) _ _)
          (names-sets store names u later))

-- Where every node of the map points to a structure, `save_ips` returns, whatever sysrepo answers.
-- It sets, for each node in the order of the map, the MTU, and for each address in order its prefix
-- length, at a path of the address's family.
pub save_ips-sets :
    (ips : Ips) (t : Trace)
    → AllThere ips.store ips.names
    → Returns (λ _ u. sets u ≡ sets t ++ names_items ips.store ips.names) (save_ips ips t)
unfolding save_ips
save_ips-sets ips t h = names-sets ips.store ips.names t h

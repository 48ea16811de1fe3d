-- ===== src/Interface/Save/Refresh.antt =====
-- interface.c, save_ips: the items of the structures that a map leads to, by name.
use mathlib.Core.List.{Mem, mem-cons_self, mem-cons_of_mem}
use tsn.Base.{
  ℕ, ◌≡◌, refl, ap, ◌∙◌, some, List, [], ◌∷◌, ◌++◌, All, CStr, ℤ, concat_map, map, wrap, u16_mod,
}
use tsn.Runtime.{Env, Val, u16}
use tsn.Interface.{Address, Ip}
use tsn.Interface.Ips.{fetch}
use tsn.Interface.Ips.Mtus.{IsMtu}
use tsn.Interface.Save.{interface_path}
use tsn.Interface.Save.Addresses.{address_items, ip_items, pointed_items, names_items, AllThere}

-- What is set for an interface that has these addresses and this MTU.
abbrev pub refresh_items : (CStr → List Address) → CStr × ℤ → List (CStr × Val)
refresh_items addresses (name, mtu) =
    (interface_path name "ietf-ip:ipv4/mtu", u16 (wrap u16_mod mtu))
    ∷ concat_map (address_items name) (addresses name)

-- A node points to a structure with its name, and the addresses and the MTU of that name.
abbrev pub IsNode : Env → List Ip → (CStr → List Address) → CStr × ℕ → Type 0
IsNode env store addresses (name, p) =
    (ip : Ip) × (fetch store p ≡ some ip)
    × (ip.name ≡ name)
    × (ip.addresses ≡ addresses name)
    × IsMtu env (name, ip.mtu)

-- The nodes of a map, each with the MTU of its structure.
abbrev pub Described : Env → List Ip → (CStr → List Address) → List (CStr × ℕ) → Type 0
Described env store addresses names =
    (mtus : List (CStr × ℤ)) × (names_items store names ≡ concat_map (refresh_items addresses) mtus)
    × (map (λ (m : CStr × ℤ). m.0) mtus ≡ map (λ (n : CStr × ℕ). n.0) names)
    × AllThere store names
    × All (IsMtu env) mtus

ip_items-refresh :
    (ip : Ip) (name : CStr) (addresses : CStr → List Address)
    → ip.name ≡ name
    → ip.addresses ≡ addresses name
    → ip_items ip ≡ refresh_items addresses (name, ip.mtu)
ip_items-refresh ip name addresses named has = rw (named, has) refl

pub names-Described :
    (env : Env) (store : List Ip) (addresses : CStr → List Address) (names : List (CStr × ℕ))
    → ((node : CStr × ℕ) → Mem node names → IsNode env store addresses node)
    → Described env store addresses names
names-Described env store addresses [] is = ([], refl, refl, tt, tt)
names-Described env store addresses ((name, p) ∷ names) is =
    let (mtus, items, keys, there, told) =
      names-Described env store addresses names (λ node m. is node (mem-cons_of_mem (name, p) m)) in
    let (ip, at, named, has, mtu) = is (name, p) mem-cons_self in
    (
      (name, ip.mtu) ∷ mtus,
      ap (λ f. pointed_items f ++ names_items store names) at
          ∙ ap (λ l. l ++ names_items store names) (ip_items-refresh ip name addresses named has)
          ∙ ap (λ l. refresh_items addresses (name, ip.mtu) ++ l) items,
      ap (λ l. name ∷ l) keys,
      rw at (tt, there),
      (mtu, told),
    )

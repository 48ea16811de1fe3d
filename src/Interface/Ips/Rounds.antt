-- ===== src/Interface/Ips/Rounds.antt =====
-- interface.c: what a round of the loop of `collect_ips` adds to the addresses of a name.
use tsn.Base.{
  subst, ℕ, ◌<◌, ◌≡◌, refl, sym, ap, ◌∙◌, arith, Bool, true, false, Option, none, some, List, [],
  ◌∷◌, ◌++◌, CStr, str_eq, ℤ, negsuc, append_assoc, append-nil, u32_mod, Bool-cases, inl, inr,
  if◌then◌else◌,
}
use tsn.Runtime.{Env, Trace, socket, IfAddr, Family, af_inet, af_inet6, af_other}
use tsn.Runtime.Containers.{Containers, IsLawful}
use tsn.Runtime.Laws.{Returns, Returns-mono, Returns-bind}
use tsn.Utils.Netmask.{SockAddr, inet, inet6, netmask_prefix}
use tsn.Utils.Netmask.Laws.{netmask_prefix-ones}
use tsn.Interface.{Interface, Address, Ip}
use tsn.Interface.Collect.{Interfaces}
use tsn.Interface.Ips.Store.{
  addresses_of, IsValid, with_new_found, with_new-IsValid, with_new-addresses_of,
  with_address-IsValid, with_address-addresses_of,
}
use tsn.Interface.Ips.{
  Ips, prefix_at, is_up, get_interface_mtu_and_flags, new_ip, find_ip, add_entry, ip_round,
}

-- Words of 32 bits.
abbrev IsMask : SockAddr → Type 0
IsMask (inet w) = w < u32_mod
IsMask (inet6 a b c d) = (a < u32_mod) × (b < u32_mod) × (c < u32_mod) × (d < u32_mod)

abbrev IsMaskAt : Option SockAddr → Type 0
IsMaskAt none = ⊥
IsMaskAt (some mask) = IsMask mask

abbrev HasMask : Option (Family × CStr) → Option SockAddr → Type 0
HasMask none mask = Unit
HasMask (some (af_inet, printed)) mask = IsMaskAt mask
HasMask (some (af_inet6, printed)) mask = IsMaskAt mask
HasMask (some (af_other, printed)) mask = Unit

-- An address of IPv4 or IPv6 comes with a netmask, made of words of 32 bits.
abbrev pub IsMasked : IfAddr → Type 0
IsMasked e = HasMask e.ifa_addr e.ifa_netmask

prefix_of_mask : (m : SockAddr) → IsMask m → (p : ℕ) × (netmask_prefix m ≡ some p)
prefix_of_mask (inet w) h =
    (_, (netmask_prefix-ones w 0 0 0 h (omega arith) (omega arith) (omega arith)).0)
prefix_of_mask (inet6 a b c d) (i, j, k, l) = (_, (netmask_prefix-ones a b c d i j k l).1)

prefix_of : (m : Option SockAddr) → IsMaskAt m → (p : ℕ) × (prefix_at m ≡ some p)
prefix_of none h = absurd h
prefix_of (some mask) h = prefix_of_mask mask h

-- `get_interface_mtu_and_flags` returns, whatever the kernel answers.
get_interface_mtu_and_flags_total :
    (env : Env) (name : CStr) (mtu : ℤ) (flags : ℕ) (t : Trace)
    → Returns (λ _ _. Unit {0}) (get_interface_mtu_and_flags env name mtu flags t)
unfolding get_interface_mtu_and_flags
get_interface_mtu_and_flags_total env name mtu flags t =
    elim (Bool-cases (env.succeeds (socket ∷ t))) [ inl e ↦ rw e tt | inr e ↦ rw e tt ]

-- The address that an entry of `getifaddrs` stands for: none, unless its interface is one of
-- `interfaces` and its family is AF_INET or AF_INET6.
abbrev entry_of : IfAddr → Bool → CStr → Option ℕ → List Address
entry_of e is_ipv4 printed none = []
entry_of e is_ipv4 printed (some prefix) =
    record { is_ipv4 = is_ipv4; addr = printed; netmask = e.netmask_text; prefix = prefix } ∷ []

abbrev by_family : IfAddr → Option (Family × CStr) → List Address
by_family e none = []
by_family e (some (af_inet, printed)) = entry_of e true printed (prefix_at e.ifa_netmask)
by_family e (some (af_inet6, printed)) = entry_of e false printed (prefix_at e.ifa_netmask)
by_family e (some (af_other, printed)) = []

abbrev if_known {ℓ} : {I : Type ℓ} → Option I → List Address → List Address
if_known none l = []
if_known (some _) l = l

module _ (env : Env) (lib : Containers) (interfaces : Interfaces) where
  pub address_of : IfAddr → List Address
  address_of e = if_known (lib.shash_find_data _ interfaces e.ifa_name) (by_family e e.ifa_addr)

  -- The addresses of the interface `k`.
  unfoldable pub addresses_in : CStr → List IfAddr → List Address
  addresses_in k [] = []
  addresses_in k (e ∷ es) = (if str_eq e.ifa_name k then address_of e else []) ++ addresses_in k es

  -- After an entry: each name has the addresses that it had, and that of the entry if it is its.
  abbrev Grown : Ips → IfAddr → Ips → Type 0
  Grown ips e ips' =
      IsValid lib ips'
      × ((k : CStr)
          → addresses_of lib ips' k
            ≡ addresses_of lib ips k ++ (if str_eq e.ifa_name k then address_of e else []))

  module _ (lawful : IsLawful lib) where
    find_ip_lem :
        (ips : Ips) (name : CStr) (t : Trace)
        → IsValid lib ips
        → Returns
            (λ r _.
              IsValid lib r.0
              × (lib.shash_find_data ℕ r.0.names name ≡ some r.1)
              × ((k : CStr) → addresses_of lib r.0 k ≡ addresses_of lib ips k))
            (find_ip env lib ips name t)
    unfolding find_ip new_ip
    find_ip_lem ips name t valid = go (lib.shash_find_data ℕ ips.names name) refl
      where
        go :
            (found : Option ℕ)
            → lib.shash_find_data ℕ ips.names name ≡ found
            → Returns
                (λ r _.
                  IsValid lib r.0
                  × (lib.shash_find_data ℕ r.0.names name ≡ some r.1)
                  × ((k : CStr) → addresses_of lib r.0 k ≡ addresses_of lib ips k))
                (find_ip env lib ips name t)
        go (some p) e = rw (e, find_ip) (valid, e, λ k. refl)
        go none e =
            rw (e, find_ip)
              (Returns-bind (λ _ _. Unit {0}) _ (get_interface_mtu_and_flags env name (negsuc 0) 0)
                (λ _ _. _) t (get_interface_mtu_and_flags_total env name (negsuc 0) 0 t)
                λ (mtu, flags) u _.
                  let x : Ip = record {
                    name = name;
                    is_up = is_up flags;
                    mtu = mtu;
                    addresses = [];
                  } in
                  (
                    with_new-IsValid lib lawful ips x e valid,
                    with_new_found lib lawful ips x e,
                    λ k. with_new-addresses_of lib lawful ips x k e refl valid,
                  ))

    add_entry_lem :
        (ips : Ips) (e : IfAddr) (is_ipv4 : Bool) (printed : CStr) (t : Trace) (p : ℕ)
        → prefix_at e.ifa_netmask ≡ some p
        → IsValid lib ips
        → Returns
            (λ r _.
              IsValid lib r
              × ((k : CStr)
                  → addresses_of lib r k
                    ≡ addresses_of lib ips k
                      ++ (if str_eq e.ifa_name k then entry_of e is_ipv4 printed (some p) else [])))
            (add_entry env lib ips e is_ipv4 printed t)
    unfolding add_entry
    add_entry_lem ips e is_ipv4 printed t p mask valid =
        Returns-bind
          (λ (r : Ips × ℕ) _.
            IsValid lib r.0
            × (lib.shash_find_data ℕ r.0.names e.ifa_name ≡ some r.1)
            × ((k : CStr) → addresses_of lib r.0 k ≡ addresses_of lib ips k))
          _ (find_ip env lib ips e.ifa_name) (λ _ _. _) t (find_ip_lem ips e.ifa_name t valid)
          λ (found, q) u (valid', at, same). rw mask (
            with_address-IsValid lib lawful found q _ valid',
            λ k.
                with_address-addresses_of lib lawful found e.ifa_name k q _ at valid'
                ∙ ap
                    (λ l.
                      l
                      ++ (if str_eq e.ifa_name k then entry_of e is_ipv4 printed (some p) else []))
                    (same k),
          )

    ip_round_lem :
        (ips : Ips) (e : IfAddr) (t : Trace)
        → IsMasked e
        → IsValid lib ips
        → Returns (λ ips' _. Grown ips e ips') (ip_round env lib interfaces ips e t)
    unfolding ip_round address_of
    ip_round_lem ips e t mask valid =
        go (lib.shash_find_data _ interfaces e.ifa_name) e.ifa_addr refl refl
      where
        unchanged :
            (k : CStr)
            → addresses_of lib ips k
              ≡ addresses_of lib ips k ++ (if str_eq e.ifa_name k then [] else [])
        unchanged k = elim (Bool-cases (str_eq e.ifa_name k)) [
          | inl h ↦ rw h (sym (append-nil _))
          | inr h ↦ rw h (sym (append-nil _))
        ]

        go :
            (known : Option Interface) (addr : Option (Family × CStr))
            → lib.shash_find_data _ interfaces e.ifa_name ≡ known
            → e.ifa_addr ≡ addr
            → Returns (λ ips' _. Grown ips e ips') (ip_round env lib interfaces ips e t)
        go none addr h i = rw (h, ip_round) (valid, unchanged)
        go (some x) none h i = rw (h, i, ip_round) (valid, unchanged)
        go (some x) (some (af_other, printed)) h i = rw (h, i, ip_round) (valid, unchanged)
        go (some x) (some (af_inet, printed)) h i =
            let (p, m) = prefix_of e.ifa_netmask (subst (λ a. HasMask a e.ifa_netmask) i mask) in
            rw (h, i, ip_round) (rw m (add_entry_lem ips e true printed t p m valid))
        go (some x) (some (af_inet6, printed)) h i =
            let (p, m) = prefix_of e.ifa_netmask (subst (λ a. HasMask a e.ifa_netmask) i mask) in
            rw (h, i, ip_round) (rw m (add_entry_lem ips e false printed t p m valid))

    -- Where the loop stands: what the entries to come will add is all that is missing.
    abbrev pub Loop : List IfAddr → List IfAddr → Ips → Trace → Type 0
    Loop all next ips u =
        IsValid lib ips
        × ((k : CStr) → addresses_of lib ips k ++ addresses_in k next ≡ addresses_in k all)

    pub ip_round-Loop :
        (all : List IfAddr) (e : IfAddr) (next : List IfAddr) (ips : Ips) (t : Trace)
        → IsMasked e
        → Loop all (e ∷ next) ips t
        → Returns (Loop all next) (ip_round env lib interfaces ips e t)
    unfolding addresses_in
    ip_round-Loop all e next ips t mask (valid, left) =
        Returns-mono (λ ips' _. Grown ips e ips') (Loop all next)
          (ip_round env lib interfaces ips e t)
          (λ ips' u grown. (
            grown.0,
            λ k.
                ap (λ l. l ++ addresses_in k next) (grown.1 k)
                ∙ append_assoc (addresses_of lib ips k) _ _
                ∙ left k,
          ))
          (ip_round_lem ips e t mask valid)

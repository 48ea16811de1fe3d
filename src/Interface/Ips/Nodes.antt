-- ===== src/Interface/Ips/Nodes.antt =====
-- interface.c: the map that collect_ips fills has the nodes that are found in it.
use mathlib.Core.List.{Mem, mem-cons}
use mathlib.Core.List.Perm
use mathlib.Core.Logic.Or
use tsn.Base.{
  str_eq, str_eq→eq, str_eq_refl, Bool, ℕ, ◌≡◌, refl, sym, ap, ◌∙◌, true, false, Bool-cases, inl,
  inr, Option, none, some, List, ◌∷◌, CStr, length, negsuc,
}
use tsn.Runtime.{
  Val, Env, Trace, IfAddr, Family, af_inet, af_inet6, af_other, socket, getifaddrs, deref, ◌>>=◌,
  fold_each, pure,
}
use tsn.Runtime.Containers.{Containers, IsLawful}
use tsn.Runtime.Ends.{IfReturns, IfReturns-bind, fold_each-IfReturns}
use tsn.Runtime.Records.{sets}
use tsn.Interface.{Interface}
use tsn.Interface.Collect.{Interfaces}
use tsn.Interface.Ips.Mtus.{mtu_at, HasMtus, HasMtus-append, HasMtus-add_address}
use tsn.Interface.Ips.{
  prefix_at, Ips, add_address, get_interface_mtu_and_flags, new_ip, find_ip, add_entry, ip_round,
  collect_ips,
}

-- Each node is the one that is found under its name.
abbrev pub IsFound : Containers → List (CStr × ℕ) → Type 0
IsFound lib names =
    (node : CStr × ℕ) → Mem node names → lib.shash_find_data ℕ names node.0 ≡ some node.1

-- A name that is found has a node.
abbrev pub IsListed : Containers → List (CStr × ℕ) → Type 0
IsListed lib names = (k : CStr) (p : ℕ) → lib.shash_find_data ℕ names k ≡ some p → Mem (k, p) names

-- What the loop keeps: the nodes are those that are found, no item is set, and the structures have
-- the MTUs of their interfaces.
abbrev pub HasNodes : Env → Containers → List (CStr × Val) → Ips → Trace → Type 0
HasNodes env lib before ips u =
    (IsFound lib ips.names × IsListed lib ips.names) × (sets u ≡ before) × HasMtus env ips.store

found_prop : (x y : Option ℕ) → IsProp (x ≡ y)
found_prop x y = hlevel

module _ (env : Env) (lib : Containers) (lawful : IsLawful lib) (before : List (CStr × Val)) where
  IsFound-shash_add :
      (n : ℕ) (names : List (CStr × ℕ)) (name : CStr)
      → lib.shash_find_data ℕ names name ≡ none
      → IsFound lib names
      → IsFound lib (lib.shash_add ℕ names name n)
  IsFound-shash_add n names name new found node at =
      Or.elim (found_prop _ _)
        (mem-cons.0 ((Perm.mem_iff (lawful.shash_add-perm ℕ names name n)).0 at))
        (λ e. rw e (lawful.shash_find_data-add ℕ names name name n new ∙ rw (str_eq_refl name)))
        (λ m. elim (Bool-cases (str_eq name node.0)) [
          | inl same ↦
              let old = found node m in
              let clash : none ≡ some node.1 =
                sym new ∙ ap (lib.shash_find_data ℕ names) (str_eq→eq name node.0 same) ∙ old in
              absurd (cc clash)
          | inr other ↦
              lawful.shash_find_data-add ℕ names name node.0 n new ∙ rw other (found node m)
        ])

  IsListed-shash_add :
      (n : ℕ) (names : List (CStr × ℕ)) (name : CStr)
      → lib.shash_find_data ℕ names name ≡ none
      → IsListed lib names
      → IsListed lib (lib.shash_add ℕ names name n)
  IsListed-shash_add n names name new listed k p h =
      let found = sym (lawful.shash_find_data-add ℕ names name k n new) ∙ h in
      (Perm.mem_iff (lawful.shash_add-perm ℕ names name n)).1 (elim (Bool-cases (str_eq name k)) [
        | inl same ↦
            let here : some n ≡ some p = sym (rw same) ∙ found in
            mem-cons.1 (Or.inl (ap (λ j. (j, p)) (sym (str_eq→eq name k same)) ∙ cc))
        | inr other ↦ mem-cons.1 (Or.inr (listed k p (sym (rw other) ∙ found)))
      ])

  get_interface_mtu_and_flags-sets :
      (name : CStr) (t : Trace)
      → sets t ≡ before
      → IfReturns
          (λ r u. (sets u ≡ before) × (r.0 ≡ mtu_at env name t))
          (get_interface_mtu_and_flags env name (negsuc 0) 0 t)
  unfolding get_interface_mtu_and_flags
  get_interface_mtu_and_flags-sets name t h = elim (Bool-cases (env.succeeds (socket ∷ t))) [
    | inl e ↦ rw e (h, refl)
    | inr e ↦ rw e (h, refl)
  ]

  find_ip-HasNodes :
      (ips : Ips) (name : CStr) (t : Trace)
      → HasNodes env lib before ips t
      → IfReturns (λ r u. HasNodes env lib before r.0 u) (find_ip env lib ips name t)
  unfolding find_ip new_ip
  find_ip-HasNodes ips name t ((nodes, listed), same, mtus) =
      go (lib.shash_find_data ℕ ips.names name) refl
    where
      go :
          (found : Option ℕ)
          → lib.shash_find_data ℕ ips.names name ≡ found
          → IfReturns (λ r u. HasNodes env lib before r.0 u) (find_ip env lib ips name t)
      go (some p) e = rw (e, find_ip) ((nodes, listed), same, mtus)
      go none e =
          rw (e, find_ip)
            (IfReturns-bind (λ r u. (sets u ≡ before) × (r.0 ≡ mtu_at env name t)) _
              (get_interface_mtu_and_flags env name (negsuc 0) 0) (λ _ _. _) t
              (get_interface_mtu_and_flags-sets name t same)
              λ (mtu, flags) u (k, told). (
                (
                  IsFound-shash_add (length ips.store) ips.names name e nodes,
                  IsListed-shash_add (length ips.store) ips.names name e listed,
                ),
                k,
                HasMtus-append env ips.store _ mtus (t, told),
              ))

  add_entry-HasNodes :
      (ips : Ips) (e : IfAddr) (is_ipv4 : Bool) (printed : CStr) (t : Trace)
      → HasNodes env lib before ips t
      → IfReturns (HasNodes env lib before) (add_entry env lib ips e is_ipv4 printed t)
  unfolding add_entry
  add_entry-HasNodes ips e is_ipv4 printed t h =
      IfReturns-bind (λ (r : Ips × ℕ) u. HasNodes env lib before r.0 u) (HasNodes env lib before)
        (find_ip env lib ips e.ifa_name) (λ _ _. _) t (find_ip-HasNodes ips e.ifa_name t h)
        λ (found, p) u ((nodes, listed), same, mtus).
          go found p (prefix_at e.ifa_netmask) u nodes listed same mtus
    where
      go :
          (found : Ips) (p : ℕ) (prefix : Option ℕ) (u : Trace)
          → IsFound lib found.names
          → IsListed lib found.names
          → sets u ≡ before
          → HasMtus env found.store
          → IfReturns (HasNodes env lib before) (
              (deref prefix >>= λ n. pure (record found {
                store = add_address lib found.store p (record {
                  is_ipv4 = is_ipv4;
                  addr = printed;
                  netmask = e.netmask_text;
                  prefix = n;
                });
              }))
                u)
      go found p none u nodes listed same mtus = tt
      go found p (some n) u nodes listed same mtus =
          ((nodes, listed), same, HasMtus-add_address env lib found.store p _ mtus)

  ip_round-HasNodes :
      (interfaces : Interfaces) (e : IfAddr) (ips : Ips) (t : Trace)
      → HasNodes env lib before ips t
      → IfReturns (HasNodes env lib before) (ip_round env lib interfaces ips e t)
  unfolding ip_round
  ip_round-HasNodes interfaces e ips t h =
      go (lib.shash_find_data _ interfaces e.ifa_name) e.ifa_addr refl refl
    where
      go :
          (known : Option Interface) (addr : Option (Family × CStr))
          → lib.shash_find_data _ interfaces e.ifa_name ≡ known
          → e.ifa_addr ≡ addr
          → IfReturns (HasNodes env lib before) (ip_round env lib interfaces ips e t)
      go none addr i j = rw (i, ip_round) h
      go (some x) none i j = rw (i, j, ip_round) h
      go (some x) (some (af_other, printed)) i j = rw (i, j, ip_round) h
      go (some x) (some (af_inet, printed)) i j =
          rw (i, j, ip_round) (add_entry-HasNodes ips e true printed t h)
      go (some x) (some (af_inet6, printed)) i j =
          rw (i, j, ip_round) (add_entry-HasNodes ips e false printed t h)

  pub collect_ips-HasNodes :
      (interfaces : Interfaces) (ips : Ips) (t : Trace)
      → HasNodes env lib before ips t
      → IfReturns (λ r u. HasNodes env lib before r.0 u) (collect_ips env lib interfaces ips t)
  unfolding collect_ips
  collect_ips-HasNodes interfaces ips t h = elim (Bool-cases (env.succeeds (getifaddrs ∷ t))) [
    | inr e ↦ rw e h
    | inl e ↦ rw e (
        IfReturns-bind (HasNodes env lib before) (λ r u. HasNodes env lib before r.0 u)
          (fold_each (env.ifaddrs (getifaddrs ∷ t)) ips (ip_round env lib interfaces)) _
          (getifaddrs ∷ t)
          (fold_each-IfReturns (HasNodes env lib before) (ip_round env lib interfaces)
            (ip_round-HasNodes interfaces) (env.ifaddrs (getifaddrs ∷ t)) ips (getifaddrs ∷ t) h)
          (λ all u k. k))
  ]

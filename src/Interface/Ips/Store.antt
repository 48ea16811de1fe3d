-- ===== src/Interface/Ips/Store.antt =====
-- interface.c: the structures of `collect_ips` behind the map from names to them.
use tsn.Base.{
  ℕ, zero, suc, ◌≡◌, ◌≢◌, refl, sym, ap, ◌∙◌, arith, true, false, Option, none, some, List, [], ◌∷◌,
  ◌++◌, CStr, str_eq, str_eq→eq, str_eq_refl, length, append-nil, Bool-cases, inl, inr, ◌==◌, ==→eq,
  if◌then◌else◌,
}
use tsn.Runtime.Containers.{Containers, IsLawful}
use tsn.Interface.{Address, Ip}
use tsn.Interface.Ips.{Ips, fetch, add_address}

abbrev pub in_structure : Option Ip → List Address
in_structure none = []
in_structure (some ip) = ip.addresses

abbrev pub addresses_at : List Ip → Option ℕ → List Address
addresses_at store none = []
addresses_at store (some p) = in_structure (fetch store p)

-- The addresses that are found under a name.
abbrev pub addresses_of : Containers → Ips → CStr → List Address
addresses_of lib ips k = addresses_at ips.store (lib.shash_find_data ℕ ips.names k)

-- Every name leads to a structure of that name.
abbrev pub IsValid : Containers → Ips → Type 0
IsValid lib ips =
    (k : CStr) (p : ℕ)
    → lib.shash_find_data ℕ ips.names k ≡ some p
    → (ip : Ip) × (fetch ips.store p ≡ some ip) × (ip.name ≡ k)

fetch-append :
    (store : List Ip) (x ip : Ip) (p : ℕ)
    → fetch store p ≡ some ip
    → fetch (store ++ (x ∷ [])) p ≡ some ip
unfolding fetch
fetch-append [] x ip p h = cc
fetch-append (y ∷ store) x ip zero h = h
fetch-append (y ∷ store) x ip (suc p) h = fetch-append store x ip p h

fetch-append_last : (store : List Ip) (x : Ip) → fetch (store ++ (x ∷ [])) (length store) ≡ some x
unfolding fetch
fetch-append_last [] x = refl
fetch-append_last (y ∷ store) x = fetch-append_last store x

module _ (lib : Containers) (lawful : IsLawful lib) where
  -- A new structure, with no address yet, under a new name.
  abbrev pub with_new : Ips → Ip → Ips
  with_new ips x = record {
    store = ips.store ++ (x ∷ []);
    names = lib.shash_add ℕ ips.names x.name (length ips.store);
  }

  with_new-find :
      (ips : Ips) (x : Ip) (k : CStr)
      → lib.shash_find_data ℕ ips.names x.name ≡ none
      → lib.shash_find_data ℕ (with_new ips x).names k
        ≡ (if str_eq x.name k then some (length ips.store) else lib.shash_find_data ℕ ips.names k)
  with_new-find ips x k new = lawful.shash_find_data-add ℕ ips.names x.name k (length ips.store) new

  pub with_new_found :
      (ips : Ips) (x : Ip)
      → lib.shash_find_data ℕ ips.names x.name ≡ none
      → lib.shash_find_data ℕ (with_new ips x).names x.name ≡ some (length ips.store)
  with_new_found ips x new = with_new-find ips x x.name new ∙ rw (str_eq_refl x.name)

  pub with_new-IsValid :
      (ips : Ips) (x : Ip)
      → lib.shash_find_data ℕ ips.names x.name ≡ none
      → IsValid lib ips
      → IsValid lib (with_new ips x)
  with_new-IsValid ips x new valid k p h = elim (Bool-cases (str_eq x.name k)) [
    | inl same ↦
        let here : some (length ips.store) ≡ some p =
          sym (with_new-find ips x k new ∙ rw same) ∙ h in
        let e : length ips.store ≡ p = cc in
        (x, rw (← e) (fetch-append_last ips.store x), str_eq→eq x.name k same)
    | inr other ↦
        let old : lib.shash_find_data ℕ ips.names k ≡ some p =
          sym (with_new-find ips x k new ∙ rw other) ∙ h in
        let (ip, found, name) = valid k p old in (ip, fetch-append ips.store x ip p found, name)
  ]

  pub with_new-addresses_of :
      (ips : Ips) (x : Ip) (k : CStr)
      → lib.shash_find_data ℕ ips.names x.name ≡ none
      → x.addresses ≡ []
      → IsValid lib ips
      → addresses_of lib (with_new ips x) k ≡ addresses_of lib ips k
  with_new-addresses_of ips x k new empty valid = elim (Bool-cases (str_eq x.name k)) [
    | inl same ↦
        rw
          (
            with_new-find ips x k new,
            same,
            fetch-append_last ips.store x,
            empty,
            ← str_eq→eq x.name k same,
            new,
          )
          refl
    | inr other ↦
        rw (with_new-find ips x k new, other) (go (lib.shash_find_data ℕ ips.names k) refl)
  ]
    where
      go :
          (found : Option ℕ)
          → lib.shash_find_data ℕ ips.names k ≡ found
          → addresses_at (ips.store ++ (x ∷ [])) found ≡ addresses_at ips.store found
      go none e = refl
      go (some p) e =
          let (ip, at, name) = valid k p e in
          ap in_structure (fetch-append ips.store x ip p at ∙ sym at)

  fetch-add_address :
      (store : List Ip) (p : ℕ) (a : Address) (ip : Ip)
      → fetch store p ≡ some ip
      → fetch (add_address lib store p a) p
        ≡ some (record ip { addresses = ip.addresses ++ (a ∷ []) })
  unfolding fetch add_address
  fetch-add_address [] p a ip h = cc
  fetch-add_address (x ∷ store) zero a ip h =
      rw lawful.list_push_back-append (let e : x ≡ ip = cc in rw e)
  fetch-add_address (x ∷ store) (suc p) a ip h = fetch-add_address store p a ip h

  fetch-add_address_ne :
      (store : List Ip) (p q : ℕ) (a : Address)
      → p ≢ q
      → fetch (add_address lib store p a) q ≡ fetch store q
  unfolding fetch add_address
  fetch-add_address_ne [] p q a h = refl
  fetch-add_address_ne (x ∷ store) zero zero a h = absurd (h refl)
  fetch-add_address_ne (x ∷ store) zero (suc q) a h = refl
  fetch-add_address_ne (x ∷ store) (suc p) zero a h = refl
  fetch-add_address_ne (x ∷ store) (suc p) (suc q) a h =
      fetch-add_address_ne store p q a (omega arith)

  -- An address more, in the structure that a name leads to.
  abbrev pub with_address : Ips → ℕ → Address → Ips
  with_address ips p a = record ips { store = add_address lib ips.store p a }

  pub with_address-IsValid :
      (ips : Ips) (p : ℕ) (a : Address) → IsValid lib ips → IsValid lib (with_address ips p a)
  with_address-IsValid ips p a valid k q h =
      let (ip, found, name) = valid k q h in
      elim (Bool-cases (p == q)) [
        | inl same ↦
            let e = ==→eq p q same in
            (
              record ip { addresses = ip.addresses ++ (a ∷ []) },
              rw e (fetch-add_address ips.store q a ip found),
              name,
            )
        | inr other ↦ (ip, fetch-add_address_ne ips.store p q a (ground arith) ∙ found, name)
      ]

  pub with_address-addresses_of :
      (ips : Ips) (name k : CStr) (p : ℕ) (a : Address)
      → lib.shash_find_data ℕ ips.names name ≡ some p
      → IsValid lib ips
      → addresses_of lib (with_address ips p a) k
        ≡ addresses_of lib ips k ++ (if str_eq name k then a ∷ [] else [])
  with_address-addresses_of ips name k p a at valid = elim (Bool-cases (str_eq name k)) [
    | inl same ↦
        let (ip, found, named) = valid name p at in
        rw (← str_eq→eq name k same, at, str_eq_refl name)
          (ap in_structure (fetch-add_address ips.store p a ip found)
            ∙ ap (λ l. in_structure l ++ (a ∷ [])) (sym found))
    | inr other ↦ rw other (go other (lib.shash_find_data ℕ ips.names k) refl ∙ sym (append-nil _))
  ]
    where
      differ : (q : ℕ) → lib.shash_find_data ℕ ips.names k ≡ some q → str_eq name k ≡ false → p ≢ q
      differ q e other eq =
          let (ip, found, named) = valid name p at in
          let (ip', found', named') = valid k q e in
          let same_place : fetch ips.store p ≡ fetch ips.store q = ap (fetch ips.store) eq in
          let same : ip ≡ ip' = cc in
          let names_agree : name ≡ k = sym named ∙ ap (λ (i : Ip). i.name) same ∙ named' in
          let clash : true ≡ false =
            sym (str_eq_refl name) ∙ ap (str_eq name) names_agree ∙ other in
          cc

      go :
          str_eq name k ≡ false
          → (found : Option ℕ) → lib.shash_find_data ℕ ips.names k ≡ found
          → addresses_at (add_address lib ips.store p a) found ≡ addresses_at ips.store found
      go other none e = refl
      go other (some q) e =
          ap in_structure (fetch-add_address_ne ips.store p q a (differ q e other))

-- ===== src/Lldp/Destroy/Laws.antt =====
-- lldp.c: destruction frees what a structure owns, once, but for the types of capabilities.
use tsn.Base.{
  ℕ, ◌+◌, Option, none, some, List, [], ◌∷◌, ◌++◌, ◌≡◌, refl, arith, CStr, map, concat_map, total,
  total-append,
}
use tsn.Lldp.{Capability, Chassis, Advertised, Negotiation, Port, Vlan, Ppvid, Lldp}
use tsn.Lldp.Destroy.{
  Block, string, names, capability, chassis, advertised, negotiation, port, vlan, ppvid, lldp,
  capability_destroy, chassis_destroy, advertised_destroy, negotiation_destroy, port_destroy,
  vlan_destroy, ppvid_destroy, lldp_destroy, free_string,
}

-- The blocks that a structure owns, weighed by `w`: its own, and those that its fields point to.
module _ (w : Block → ℕ) where
  abbrev pub strings : List CStr → ℕ
  strings v = total (λ s. w (string s)) v

  abbrev pub text_owned : Option CStr → ℕ
  text_owned none = 0
  text_owned (some s) = w (string s)

  abbrev pub capability_owned : Capability → ℕ
  capability_owned c = w (capability c) + text_owned c.kind

  abbrev pub chassis_owned : Option Chassis → ℕ
  chassis_owned none = 0
  chassis_owned (some c) =
      w (chassis c)
      + text_owned c.id
      + text_owned c.id_type
      + text_owned c.name
      + text_owned c.description
      + (strings c.mgmt_ip + w (names c.mgmt_ip))
      + total capability_owned c.capabilities

  abbrev pub advertised_owned : Advertised → ℕ
  advertised_owned a = w (advertised a) + text_owned a.kind

  abbrev pub negotiation_owned : Option Negotiation → ℕ
  negotiation_owned none = 0
  negotiation_owned (some n) =
      w (negotiation n) + text_owned n.current + total advertised_owned n.advertise

  abbrev pub port_owned : Option Port → ℕ
  port_owned none = 0
  port_owned (some p) =
      w (port p)
      + text_owned p.id
      + text_owned p.id_type
      + text_owned p.description
      + negotiation_owned p.negotiation

  abbrev pub vlan_owned : Option Vlan → ℕ
  vlan_owned none = 0
  vlan_owned (some v) = w (vlan v) + text_owned v.id + text_owned v.value

  abbrev pub ppvid_owned : Option Ppvid → ℕ
  ppvid_owned none = 0
  ppvid_owned (some p) = w (ppvid p)

  abbrev pub lldp_owned : Lldp → ℕ
  lldp_owned l =
      w (lldp l)
      + text_owned l.name
      + text_owned l.via
      + text_owned l.rid
      + chassis_owned l.chassis
      + port_owned l.port
      + vlan_owned l.vlan
      + ppvid_owned l.ppvid
      + (strings l.pi + w (names l.pi))

  -- The type strings of the capabilities of a chassis.
  abbrev pub kinds_of : Option Chassis → ℕ
  kinds_of none = 0
  kinds_of (some c) = total (λ (k : Capability). text_owned k.kind) c.capabilities

  total-free_string : (s : Option CStr) → total w (free_string s) ≡ text_owned s
  total-free_string none = refl
  total-free_string (some s) = omega arith

  total-map_string : (v : List CStr) → total w (map string v) ≡ strings v
  total-map_string [] = refl
  total-map_string (s ∷ v) = omega (arith, total-map_string v)

  total-capabilities :
      (cs : List Capability)
      → total w (concat_map capability_destroy cs)
          + total (λ (k : Capability). text_owned k.kind) cs
        ≡ total capability_owned cs
  unfolding capability_destroy
  total-capabilities [] = refl
  total-capabilities (c ∷ cs) = omega (arith, total-capabilities cs)

  total-advertised :
      (ads : List Advertised)
      → total w (concat_map advertised_destroy ads) ≡ total advertised_owned ads
  unfolding advertised_destroy
  total-advertised [] = refl
  total-advertised (a ∷ ads) = omega (
    arith,
    total-advertised ads,
    total-free_string a.kind,
    total-append w (free_string a.kind ++ (advertised a ∷ [])) (concat_map advertised_destroy ads),
    total-append w (free_string a.kind) (advertised a ∷ []),
  )

  total-chassis_destroy :
      (c : Option Chassis) → total w (chassis_destroy c) + kinds_of c ≡ chassis_owned c
  unfolding chassis_destroy
  total-chassis_destroy none = refl
  total-chassis_destroy (some c) =
      simp (total-append, total-free_string, total-map_string)
        (omega (arith, total-capabilities c.capabilities))

  total-negotiation_destroy :
      (n : Option Negotiation) → total w (negotiation_destroy n) ≡ negotiation_owned n
  unfolding negotiation_destroy
  total-negotiation_destroy none = refl
  total-negotiation_destroy (some n) =
      simp (total-append, total-free_string) (omega (arith, total-advertised n.advertise))

  total-port_destroy : (p : Option Port) → total w (port_destroy p) ≡ port_owned p
  unfolding port_destroy
  total-port_destroy none = refl
  total-port_destroy (some p) =
      simp (total-append, total-free_string, total-negotiation_destroy) (omega arith)

  total-vlan_destroy : (v : Option Vlan) → total w (vlan_destroy v) ≡ vlan_owned v
  unfolding vlan_destroy
  total-vlan_destroy none = refl
  total-vlan_destroy (some v) = simp (total-append, total-free_string) (omega arith)

  total-ppvid_destroy : (p : Option Ppvid) → total w (ppvid_destroy p) ≡ ppvid_owned p
  unfolding ppvid_destroy
  total-ppvid_destroy none = refl
  total-ppvid_destroy (some p) = omega arith

  -- Destruction frees each block that a neighbour owns, once and no other, but for one sort: the
  -- strings that name the types of the chassis's capabilities are not freed. This is counted by
  -- any weight of the blocks.
  pub total-lldp_destroy :
      (l : Lldp) → total w (lldp_destroy (some l)) + kinds_of l.chassis ≡ lldp_owned l
  unfolding lldp_destroy
  total-lldp_destroy l =
      simp
        (
          total-append, total-free_string, total-map_string, total-port_destroy, total-vlan_destroy,
          total-ppvid_destroy,
        )
        (omega (arith, total-chassis_destroy l.chassis))

-- ===== src/Lldp/Destroy.antt =====
-- lldp.c, the functions *_destroy: what each frees, against the blocks that a structure owns.
pub mod Laws
use tsn.Base.{ℕ, Option, none, some, List, [], ◌∷◌, ◌++◌, CStr, map, concat_map}
use tsn.Lldp.{Capability, Chassis, Advertised, Negotiation, Port, Vlan, Ppvid, Lldp}

-- A block of the heap: a string, the array of a string vector, or a structure.
pub data Block : Type 0 where
  string : CStr → Block
  names : List CStr → Block
  capability : Capability → Block
  chassis : Chassis → Block
  advertised : Advertised → Block
  negotiation : Negotiation → Block
  port : Port → Block
  vlan : Vlan → Block
  ppvid : Ppvid → Block
  lldp : Lldp → Block

-- `if (p) free (p);` on a string.
abbrev pub free_string : Option CStr → List Block
free_string none = []
free_string (some s) = string s ∷ []

-- `svec_destroy`: the strings, and then their array.
abbrev pub svec_destroy : List CStr → List Block
svec_destroy v = map string v ++ (names v ∷ [])

-- What the functions free, in their order.
unfoldable pub capability_destroy : Capability → List Block
capability_destroy c = capability c ∷ []

unfoldable pub chassis_destroy : Option Chassis → List Block
unfolding capability_destroy
chassis_destroy none = []
chassis_destroy (some c) =
    free_string c.id
    ++ (free_string c.id_type
        ++ (free_string c.name
            ++ (free_string c.description
                ++ (svec_destroy c.mgmt_ip
                    ++ (concat_map capability_destroy c.capabilities ++ (chassis c ∷ []))))))

unfoldable pub advertised_destroy : Advertised → List Block
advertised_destroy a = free_string a.kind ++ (advertised a ∷ [])

unfoldable pub negotiation_destroy : Option Negotiation → List Block
unfolding advertised_destroy
negotiation_destroy none = []
negotiation_destroy (some n) =
    concat_map advertised_destroy n.advertise ++ (free_string n.current ++ (negotiation n ∷ []))

unfoldable pub port_destroy : Option Port → List Block
unfolding negotiation_destroy
port_destroy none = []
port_destroy (some p) =
    free_string p.id
    ++ (free_string p.id_type
        ++ (free_string p.description ++ (negotiation_destroy p.negotiation ++ (port p ∷ []))))

unfoldable pub vlan_destroy : Option Vlan → List Block
vlan_destroy none = []
vlan_destroy (some v) = free_string v.id ++ (free_string v.value ++ (vlan v ∷ []))

unfoldable pub ppvid_destroy : Option Ppvid → List Block
ppvid_destroy none = []
ppvid_destroy (some p) = ppvid p ∷ []

unfoldable pub lldp_destroy : Option Lldp → List Block
unfolding chassis_destroy port_destroy vlan_destroy ppvid_destroy
lldp_destroy none = []
lldp_destroy (some l) =
    free_string l.name
    ++ (free_string l.via
        ++ (free_string l.rid
            ++ (chassis_destroy l.chassis
                ++ (port_destroy l.port
                    ++ (vlan_destroy l.vlan
                        ++ (ppvid_destroy l.ppvid ++ (svec_destroy l.pi ++ (lldp l ∷ []))))))))

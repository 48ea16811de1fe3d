-- ===== src/Lldp.antt =====
-- lldp.c and lldp.h: the neighbours that lldpd knows, from the XML that `lldpcli` prints.
pub mod Props
pub mod ReadChassis
pub mod ReadPort
pub mod Parse
pub mod Destroy
pub mod Node
pub mod Publish
pub mod Provider
use tsn.Base.{ℕ, Bool, CStr, Option, none, some, List}

pub record Capability : Type 0 where
  pub kind : Option CStr
  pub enabled : Bool

pub record Chassis : Type 0 where
  pub id : Option CStr
  pub id_type : Option CStr
  pub name : Option CStr
  pub description : Option CStr
  pub ttl : ℕ
  pub mgmt_ip : List CStr
  pub capabilities : List Capability

pub record Advertised : Type 0 where
  pub kind : Option CStr
  pub hd : Bool
  pub fd : Bool

pub record Negotiation : Type 0 where
  pub advertise : List Advertised
  pub supported : Bool
  pub enabled : Bool
  pub current : Option CStr

pub record Port : Type 0 where
  pub id : Option CStr
  pub id_type : Option CStr
  pub description : Option CStr
  pub ttl : ℕ
  pub mfs : ℕ
  pub negotiation : Option Negotiation

pub record Vlan : Type 0 where
  pub id : Option CStr
  pub pvid : Bool
  pub value : Option CStr

pub record Ppvid : Type 0 where
  pub supported : Bool
  pub enabled : Bool

-- `lldp_t`.
pub record Lldp : Type 0 where
  pub name : Option CStr
  pub via : Option CStr
  pub rid : Option CStr
  pub age : ℕ
  pub chassis : Option Chassis
  pub port : Option Port
  pub vlan : Option Vlan
  pub ppvid : Option Ppvid
  pub pi : List CStr

-- libxml2, by what the program reads of a node. `children` is the list that begins at `children`
-- and goes on by `next`. `xmlNodeGetContent` of an element is never NULL.
pub record Xml : Type 1 where
  pub Node : Type 0
  pub name : Node → CStr
  pub children : Node → List Node
  pub has_prop : Node → CStr → Bool
  pub get_prop : Node → CStr → CStr
  pub content : Node → CStr
  -- `xmlParseDoc`, by the root element of the document; either may be NULL.
  pub parse_doc : CStr → Option (Option Node)

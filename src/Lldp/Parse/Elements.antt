-- ===== src/Lldp/Parse/Elements.antt =====
-- lldp.c: what the readers of the elements inside an interface's make of one element.
use tsn.Base.{Cases, none, some, ◌≡◌}
use tsn.Runtime.Containers.{Containers, IsLawful}
use tsn.Lldp.{Chassis, Negotiation, Port, Xml}
use tsn.Lldp.Props.{is_named}
use tsn.Lldp.ReadChassis.{get_chassis_from_node}
use tsn.Lldp.ReadChassis.Laws.{DescribesChassis, no_chassis, get_chassis_from_node_lem}
use tsn.Lldp.ReadPort.{get_port_from_node, get_negotiation_from_node}
use tsn.Lldp.ReadPort.Laws.{
  DescribesNegotiation, DescribesPort, negotiation_of, no_port, get_port_from_node_lem,
  get_negotiation_from_node_lem,
}

module _ (xml : Xml) (lib : Containers) where
  abbrev ChassisRead : xml.Node → Type 0
  ChassisRead node =
      Cases (is_named xml "chassis" node)
        ((r : Chassis) × (get_chassis_from_node xml lib node ≡ some r)
          × DescribesChassis xml no_chassis (xml.children node) r)
        (get_chassis_from_node xml lib node ≡ none)

  abbrev PortRead : xml.Node → Type 0
  PortRead node =
      Cases (is_named xml "port" node)
        ((r : Port) × (get_port_from_node xml lib node ≡ some r)
          × DescribesPort xml lib no_port (xml.children node) r)
        (get_port_from_node xml lib node ≡ none)

  abbrev NegotiationRead : xml.Node → Type 0
  NegotiationRead node =
      Cases (is_named xml "auto-negotiation" node)
        ((r : Negotiation) × (get_negotiation_from_node xml lib node ≡ some r)
          × DescribesNegotiation xml (negotiation_of xml node) (xml.children node) r)
        (get_negotiation_from_node xml lib node ≡ none)

  -- Each reader makes a structure of an element of its name, and of no other.
  abbrev pub ElementsRead : xml.Node → Type 0
  ElementsRead node = ChassisRead node × PortRead node × NegotiationRead node

  -- Of an element of any name: where it is a `chassis`, its reader makes the chassis that its
  -- children describe, all management addresses and capabilities in order; where it is a `port`,
  -- the port that they describe; where it is an `auto-negotiation`, the negotiation with the flags
  -- of the element and the advertised modes of the children in order. Of the other fields the last
  -- child of the name counts. Of an element of another name than its own, a reader makes NULL.
  pub elements_described : IsLawful lib → (node : xml.Node) → ElementsRead node
  elements_described lawful node = (
    get_chassis_from_node_lem xml lib lawful node,
    get_port_from_node_lem xml lib node,
    get_negotiation_from_node_lem xml lib lawful node,
  )

-- ===== src/Lldp/ReadPort.antt =====
-- lldp.c, get_advertised_from_node, get_negotiation_from_node and get_port_from_node.
pub mod Laws
use tsn.Base.{
  ℕ, Bool, true, false, not, Option, none, some, List, [], ◌∷◌, CStr, String, text, if◌then◌else◌,
}
use tsn.Runtime.Containers.{Containers}
use tsn.Lldp.Props.{
  is_named, get_node_content_str, get_node_prop_str, get_node_prop_bool, get_node_prop_enabled,
  content_u32, over_children, push,
}
use tsn.Lldp.{Advertised, Negotiation, Port, Xml}

module _ (xml : Xml) (lib : Containers) where
  open xml use {Node, children, content}

  advertised_init : Advertised
  advertised_init = record { kind = none; hd = false; fd = false }

  get_advertised_from_node : Node → Option Advertised
  get_advertised_from_node node =
      if not (is_named xml "advertised" node)
      then none
      else some (record {
        kind = get_node_prop_str xml (some node) "type";
        hd = get_node_prop_bool xml (some node) "hd" advertised_init.hd;
        fd = get_node_prop_bool xml (some node) "fd" advertised_init.fd;
      })

  negotiation_init : Negotiation
  negotiation_init = record { advertise = []; supported = false; enabled = false; current = none }

  negotiation_round : Negotiation → Node → Negotiation
  negotiation_round negotiation current =
      if is_named xml "advertised" current
      then record negotiation {
        advertise = push lib negotiation.advertise (get_advertised_from_node current);
      }
      else if is_named xml "current" current
      then record negotiation { current = get_node_content_str xml (some current) }
      else negotiation

  unfoldable pub get_negotiation_from_node : Node → Option Negotiation
  unfolding over_children negotiation_round negotiation_init get_advertised_from_node
      advertised_init push is_named get_node_content_str get_node_prop_str get_node_prop_bool
  get_negotiation_from_node node =
      if not (is_named xml "auto-negotiation" node)
      then none
      else some (
          over_children xml negotiation_round
            (record negotiation_init {
              supported = get_node_prop_bool xml (some node) "supported" negotiation_init.supported;
              enabled = get_node_prop_bool xml (some node) "enabled" negotiation_init.enabled;
            })
            (children node))

  port_init : Port
  port_init = record {
    id = none;
    id_type = none;
    description = none;
    ttl = 0;
    mfs = 0;
    negotiation = none;
  }

  port_round : Port → Node → Port
  port_round port current =
      if is_named xml "id" current
      then record port {
        id_type = get_node_prop_str xml (some current) "type";
        id = get_node_content_str xml (some current);
      }
      else if is_named xml "descr" current
      then record port { description = get_node_content_str xml (some current) }
      else if is_named xml "ttl" current
      then record port { ttl = content_u32 xml current }
      else if is_named xml "mfs" current
      then record port { mfs = content_u32 xml current }
      else if is_named xml "auto-negotiation" current
      then record port { negotiation = get_negotiation_from_node current }
      else port

  unfoldable pub get_port_from_node : Node → Option Port
  unfolding over_children port_round port_init get_negotiation_from_node is_named content_u32
      get_node_content_str get_node_prop_str
  get_port_from_node node =
      if not (is_named xml "port" node)
      then none
      else some (over_children xml port_round port_init (children node))

-- ===== src/Lldp/Parse.antt =====
-- lldp.c, get_vlan_from_node, get_ppvid_from_node and get_lldp_from_node.
pub mod Elements
pub mod Laws
use tsn.Base.{
  ℕ, Bool, true, false, not, Option, none, some, List, [], ◌∷◌, CStr, String, text, if◌then◌else◌,
}
use tsn.Runtime.Containers.{Containers}
use tsn.Lldp.Props.{
  is_named, get_node_content_str, get_node_prop_str, get_node_prop_bool, get_node_prop_enabled,
  content_u32, over_children, push,
}
use tsn.Lldp.{Vlan, Ppvid, Lldp, Xml}
use tsn.Lldp.ReadChassis.{get_chassis_from_node}
use tsn.Lldp.ReadPort.{get_port_from_node}

module _ (xml : Xml) (lib : Containers) where
  open xml use {Node, children, content}

  unfoldable pub get_vlan_from_node : Node → Option Vlan
  unfolding is_named get_node_content_str get_node_prop_str get_node_prop_bool
  get_vlan_from_node node =
      if not (is_named xml "vlan" node)
      then none
      else some (record {
        id = get_node_prop_str xml (some node) "vlan-id";
        pvid = get_node_prop_bool xml (some node) "pvid" false;
        value = get_node_content_str xml (some node);
      })

  unfoldable pub get_ppvid_from_node : Node → Option Ppvid
  unfolding is_named get_node_prop_bool
  get_ppvid_from_node node =
      if not (is_named xml "ppvid" node)
      then none
      else some (record {
        supported = get_node_prop_bool xml (some node) "supported" false;
        enabled = get_node_prop_bool xml (some node) "enabled" false;
      })

  lldp_init : Lldp
  lldp_init = record {
    name = none;
    via = none;
    rid = none;
    age = 0;
    chassis = none;
    port = none;
    vlan = none;
    ppvid = none;
    pi = [];
  }

  lldp_round : Lldp → Node → Lldp
  lldp_round lldp current =
      if is_named xml "pi" current
      then record lldp { pi = lib.svec_add_nocopy lldp.pi (content current) }
      else if is_named xml "vlan" current
      then record lldp { vlan = get_vlan_from_node current }
      else if is_named xml "ppvid" current
      then record lldp { ppvid = get_ppvid_from_node current }
      else if is_named xml "chassis" current
      then record lldp { chassis = get_chassis_from_node xml lib current }
      else if is_named xml "port" current
      then record lldp { port = get_port_from_node xml lib current }
      else lldp

  unfoldable pub get_lldp_from_node : Node → Option Lldp
  unfolding over_children lldp_round lldp_init get_vlan_from_node get_ppvid_from_node
      get_chassis_from_node get_port_from_node is_named
  get_lldp_from_node node =
      if not (is_named xml "interface" node)
      then none
      else some (over_children xml lldp_round lldp_init (children node))

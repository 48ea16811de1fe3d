-- ===== src/Lldp/ReadChassis.antt =====
-- lldp.c, get_capability_from_node and get_chassis_from_node.
pub mod Laws
use tsn.Base.{
  ℕ, Bool, true, false, not, Option, none, some, List, [], ◌∷◌, CStr, String, text, if◌then◌else◌,
}
use tsn.Runtime.Containers.{Containers}
use tsn.Lldp.Props.{
  is_named, get_node_content_str, get_node_prop_str, get_node_prop_bool, get_node_prop_enabled,
  content_u32, over_children, push,
}
use tsn.Lldp.{Capability, Chassis, Xml}

module _ (xml : Xml) (lib : Containers) where
  open xml use {Node, children, content}

  -- `calloc`.
  capability_init : Capability
  capability_init = record { kind = none; enabled = false }

  get_capability_from_node : Node → Option Capability
  get_capability_from_node node =
      if not (is_named xml "capability" node)
      then none
      else some (record capability_init {
        kind = get_node_prop_str xml (some node) "type";
        enabled = get_node_prop_enabled xml (some node) "enabled" capability_init.enabled;
      })

  chassis_init : Chassis
  chassis_init = record {
    id = none;
    id_type = none;
    name = none;
    description = none;
    ttl = 0;
    mgmt_ip = [];
    capabilities = [];
  }

  -- The body of the loop over the children.
  chassis_round : Chassis → Node → Chassis
  chassis_round chassis current =
      if is_named xml "id" current
      then record chassis {
        id_type = get_node_prop_str xml (some current) "type";
        id = get_node_content_str xml (some current);
      }
      else if is_named xml "name" current
      then record chassis { name = get_node_content_str xml (some current) }
      else if is_named xml "descr" current
      then record chassis { description = get_node_content_str xml (some current) }
      else if is_named xml "ttl" current
      then record chassis { ttl = content_u32 xml current }
      else if is_named xml "mgmt-ip" current
      then record chassis { mgmt_ip = lib.svec_add_nocopy chassis.mgmt_ip (content current) }
      else if is_named xml "capability" current
      then record chassis {
        capabilities = push lib chassis.capabilities (get_capability_from_node current);
      }
      else chassis

  unfoldable pub get_chassis_from_node : Node → Option Chassis
  unfolding over_children chassis_round chassis_init get_capability_from_node capability_init push
      is_named content_u32 get_node_content_str get_node_prop_str get_node_prop_enabled
  get_chassis_from_node node =
      if not (is_named xml "chassis" node)
      then none
      else some (over_children xml chassis_round chassis_init (children node))

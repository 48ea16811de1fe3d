-- ===== src/Lldp/Props.antt =====
-- lldp.c, get_node_content_str, get_node_prop_str, get_node_prop_bool and get_node_prop_enabled,
-- and the loop over the children of a node.
pub mod Laws
use tsn.Base.{
  ℕ, Bool, true, false, not, Option, none, some, List, [], ◌∷◌, CStr, String, text, str_eq, atoi,
  wrap, u32_mod, if◌then◌else◌,
}
use tsn.Runtime.Containers.{Containers}
use tsn.Lldp.{Xml}

module _ (xml : Xml) where
  open xml use {Node, name, has_prop, get_prop, content}

  -- `xmlStrEqual (node->name, key)`
  unfoldable pub is_named : String → Node → Bool
  is_named key node = str_eq (name node) (text key)

  -- The null test that each function on a node begins with.
  unfoldable pub get_node_content_str : Option Node → Option CStr
  get_node_content_str none = none
  get_node_content_str (some node) = some (content node)

  unfoldable pub get_node_prop_str : Option Node → String → Option CStr
  get_node_prop_str none attrib_name = none
  get_node_prop_str (some node) attrib_name =
      if has_prop node (text attrib_name) then some (get_prop node (text attrib_name)) else none

  -- `*value` after the call, from its value before.
  unfoldable pub get_node_prop_bool : Option Node → String → Bool → Bool
  get_node_prop_bool none attrib_name value = value
  get_node_prop_bool (some node) attrib_name value =
      if has_prop node (text attrib_name)
      then str_eq (get_prop node (text attrib_name)) (text "true")
      else value

  unfoldable pub get_node_prop_enabled : Option Node → String → Bool → Bool
  get_node_prop_enabled none attrib_name value = value
  get_node_prop_enabled (some node) attrib_name value =
      if has_prop node (text attrib_name)
      then str_eq (get_prop node (text attrib_name)) (text "on")
      else value

  -- `atoi (xmlNodeGetContent (node))`, stored in a `uint32_t`.
  unfoldable pub content_u32 : Node → ℕ
  content_u32 node = wrap u32_mod (atoi (content node))

  -- `while (current != NULL) { … current = current->next; }`
  unfoldable pub over_children : {S : Type 0} → (S → Node → S) → S → List Node → S
  over_children round s [] = s
  over_children round s (current ∷ next) = over_children round (round s current) next

-- `list_push_back (&list, &item->node)`. An item is never NULL here: its node has the right name.
unfoldable pub push : Containers → {A : Type 0} → List A → Option A → List A
push lib list none = list
push lib list (some item) = lib.list_push_back _ list item

-- ===== src/Tests/Documents.antt =====
-- XML and JSON as trees, and documents of the kinds that the program reads.
use tsn.Base.{
  ℕ, Bool, true, false, ◌==◌, ◌-◌, Option, none, some, List, [], ◌∷◌, CStr, text, str_eq,
  if◌then◌else◌, pos, length,
}
use tsn.Lldp.{Xml}
use tsn.Bridge.Vlan.{CJson}
use tsn.Tests.World.{find_pair}

mutual
  -- An element: its name, its attributes, its children and its content.
  pub data Tree : Type 0 where
    element : CStr → List (CStr × CStr) → Forest → CStr → Tree

  pub data Forest : Type 0 where
    none_more : Forest
    and_then : Tree → Forest → Forest

abbrev trees : Forest → List Tree
trees none_more = []
trees (and_then t f) = t ∷ trees f

abbrev pub name_of : Tree → CStr
name_of (element name attributes inner content) = name

abbrev pub attributes_of : Tree → List (CStr × CStr)
attributes_of (element name attributes inner content) = attributes

abbrev pub children_of : Tree → List Tree
children_of (element name attributes inner content) = trees inner

abbrev pub content_of : Tree → CStr
content_of (element name attributes inner content) = content

abbrev or_empty : Option CStr → CStr
or_empty none = []
or_empty (some s) = s

abbrev is_there : Option CStr → Bool
is_there none = false
is_there (some s) = true

-- A parser that yields one document for every text.
abbrev pub xml_of : Tree → Xml
xml_of root = record {
  Node = Tree;
  name = name_of;
  children = children_of;
  has_prop = λ n key. is_there (find_pair CStr (attributes_of n) key);
  get_prop = λ n key. or_empty (find_pair CStr (attributes_of n) key);
  content = content_of;
  parse_doc = λ s. some (some root);
}

abbrev pub chassis_node : Tree
chassis_node =
    element (text "chassis") []
      (and_then
        (element (text "id") ((text "type", text "mac") ∷ []) none_more (text "00:04:9f:05:de:0a"))
        (and_then (element (text "mgmt-ip") [] none_more (text "10.0.0.3")) none_more))
      []

abbrev pub negotiation_node : Tree
negotiation_node =
    element (text "auto-negotiation") ((text "supported", text "yes") ∷ []) none_more []

abbrev pub port_node : Tree
port_node =
    element (text "port") []
      (and_then
        (element (text "id") ((text "type", text "mac") ∷ []) none_more (text "00:04:9f:05:de:0b"))
        (and_then negotiation_node none_more))
      []

abbrev pub interface_node : Tree
interface_node =
    element (text "interface")
      ((text "name", text "eno0")
        ∷ (text "rid", text "1")
        ∷ (text "age", text "0 day, 00:01:02")
        ∷ [])
      (and_then chassis_node (and_then port_node none_more)) []

abbrev pub lldp_node : Tree
lldp_node = element (text "lldp") [] (and_then interface_node none_more) []

abbrev pub local_chassis_node : Tree
local_chassis_node = element (text "local-chassis") [] (and_then chassis_node none_more) []

-- JSON: an object with one array of entries under a name, each entry a VLAN id.
pub data Json : Type 0 where
  object : CStr → List ℕ → Json
  array : List ℕ → Json
  entry : ℕ → Json
  number : ℕ → Json

abbrev item_at : List ℕ → ℕ → Option Json
item_at [] i = none
item_at (x ∷ xs) i = if i == 0 then some (entry x) else item_at xs (i - 1)

abbrev object_item : Json → CStr → Option Json
object_item (object name xs) key = if str_eq name key then some (array xs) else none
object_item (entry id) key = if str_eq key (text "vlan") then some (number id) else none
object_item _ key = none

abbrev pub json_of : Json → CJson
json_of doc = record {
  Json = Json;
  parse = λ s. some doc;
  get_object_item = λ j key. elim j [ none ↦ none | some o ↦ object_item o key ];
  is_array = λ j. elim j [ some (array xs) ↦ true | _ ↦ false ];
  array_size = λ j. elim j [ some (array xs) ↦ length xs | _ ↦ 0 ];
  array_item = λ j i. elim j [ some (array xs) ↦ item_at xs i | _ ↦ none ];
  is_number = λ j. elim j [ some (number n) ↦ true | _ ↦ false ];
  valueint = λ j. elim j [ some (number n) ↦ pos n | _ ↦ pos 0 ];
  is_string = λ j. false;
  string_value = λ j. [];
}

-- ===== src/Tests/Lldp.antt =====
-- The theorems on lldp.c at concrete inputs.
use tsn.Base.{str_eq, ◌+◌, ◌≡◌, refl, arith, ◌∷◌, [], text, none, some, Cases, total, true}
use tsn.Runtime.Laws.{Returns}
use tsn.Lldp.{Lldp, Chassis, Port, Xml}
use tsn.Lldp.Props.{is_named, get_node_prop_str}
use tsn.Lldp.Parse.Elements.{ElementsRead, elements_described}
use tsn.Lldp.ReadChassis.Laws.{no_chassis}
use tsn.Lldp.ReadPort.{get_negotiation_from_node}
use tsn.Lldp.ReadPort.Laws.{no_port}
use tsn.Lldp.Parse.{get_lldp_from_node}
use tsn.Lldp.Parse.Laws.{DescribesLldp, no_lldp, get_lldp_from_node_lem}
use tsn.Lldp.Destroy.{lldp_destroy}
use tsn.Lldp.Destroy.Laws.{kinds_of, lldp_owned, total-lldp_destroy}
use tsn.Lldp.Publish.Laws.{IsPublishable}
use tsn.Lldp.Publish.Decided.{Decided, publish-Decided}
use tsn.Lldp.Provider.{lldp_port_provider}
use tsn.Lldp.Provider.Laws.{
  Prints, Published, NothingPublished, lldp_port_provider-Published, lldp_port_provider_unpublished,
}
use tsn.Tests.World.{world, list_containers, list_containers-IsLawful}
use tsn.Tests.Documents.{
  xml_of, children_of, port_node, negotiation_node, interface_node, lldp_node, local_chassis_node,
}

abbrev pub doc : Xml
doc = xml_of lldp_node

elements_described_example : ElementsRead doc list_containers port_node
elements_described_example =
    elements_described doc list_containers list_containers-IsLawful port_node

get_lldp_from_node_lem_example :
    Cases
      (is_named doc "interface" interface_node)
      ((r : Lldp) × (get_lldp_from_node doc list_containers interface_node ≡ some r)
        × DescribesLldp doc list_containers no_lldp (children_of interface_node) r)
      (get_lldp_from_node doc list_containers interface_node ≡ none)
get_lldp_from_node_lem_example =
    get_lldp_from_node_lem doc list_containers list_containers-IsLawful interface_node

abbrev known_chassis : Chassis
known_chassis = record no_chassis {
  id = some (text "00:04:9f:05:de:0a");
  id_type = some (text "mac");
  mgmt_ip = text "10.0.0.3" ∷ [];
}

abbrev known_port : Port
known_port = record no_port {
  id = some (text "00:04:9f:05:de:0b");
  id_type = some (text "mac");
  negotiation = get_negotiation_from_node doc list_containers negotiation_node;
}

-- What the children of the interface give.
abbrev read : Lldp
read = record no_lldp { chassis = some known_chassis; port = some known_port }

abbrev known : Lldp
known = record read { name = some (text "eno0"); rid = some (text "1") }

total-lldp_destroy_example :
    total (λ b. 1) (lldp_destroy (some known)) + kinds_of (λ b. 1) known.chassis
    ≡ lldp_owned (λ b. 1) known
total-lldp_destroy_example = total-lldp_destroy (λ b. 1) known

publish-Decided_example : Decided world true known []
publish-Decided_example = publish-Decided world true known []

interface-IsPublishable : IsPublishable list_containers doc interface_node
unfolding get_lldp_from_node get_node_prop_str text str_eq
interface-IsPublishable = record {
  lldp = read;
  age = text "0 day, 00:01:02";
  rid = text "1";
  port_id = text "00:04:9f:05:de:0b";
  port = known_port;
  chassis = known_chassis;
  is_read = refl;
  has_age = refl;
  is_complete = record {
    has_rid = refl;
    has_port = refl;
    has_port_id = refl;
    long_id = omega arith;
    has_chassis = refl;
  };
}

prints : (x : Xml) → Prints world list_containers x [] (text "<lldp/>")
unfolding text
prints x = record { runs = refl; printed = refl; no_nul = omega arith }

lldp_port_provider-Published_example :
    Returns
      (λ _ u. Published world list_containers doc lldp_node [] u)
      (lldp_port_provider world list_containers doc [])
unfolding is_named text str_eq
lldp_port_provider-Published_example =
    lldp_port_provider-Published world list_containers doc list_containers-IsLawful []
      (text "<lldp/>") lldp_node (prints doc)
      (record { parses = refl; is_lldp = refl; fine = ((λ e. interface-IsPublishable), tt) })

abbrev other_doc : Xml
other_doc = xml_of local_chassis_node

lldp_port_provider_unpublished_example :
    Returns
      (λ _ u. NothingPublished world list_containers other_doc 0 [] u)
      (lldp_port_provider world list_containers other_doc [])
unfolding is_named text str_eq
lldp_port_provider_unpublished_example =
    lldp_port_provider_unpublished world list_containers other_doc list_containers-IsLawful []
      (λ e. ((prints other_doc).no_nul, refl))

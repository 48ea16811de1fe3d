-- ===== src/Lldp/ReadChassis/Laws.antt =====
-- lldp.c: the chassis that is read is the one that the children of the node describe.
use tsn.Base.{
  Cases, Cases_intro, false, Option, none, some, List, [], ◌∷◌, ◌++◌, ◌≡◌, refl, sym, ◌∙◌, CStr,
  String, text, str_eq, map, append-nil, Bool-cases, inl, inr, if◌then◌else◌,
}
use tsn.Runtime.Containers.{Containers, IsLawful}
use tsn.Lldp.{Capability, Chassis, Xml}
use tsn.Lldp.Props.{
  is_named, get_node_content_str, get_node_prop_str, get_node_prop_enabled, content_u32,
  over_children, push,
}
use tsn.Lldp.Props.Laws.{last_value, named_children, is_named→eq, append-if}
use tsn.Lldp.ReadChassis.{
  chassis_round, get_capability_from_node, get_chassis_from_node, capability_init,
}

module _ (xml : Xml) where
  -- A string property, and the content, of a node that is there.
  abbrev prop : String → xml.Node → Option CStr
  prop key n = get_node_prop_str xml (some n) key

  abbrev content : xml.Node → Option CStr
  content n = get_node_content_str xml (some n)

  -- A capability element.
  abbrev capability_of : xml.Node → Capability
  capability_of n = record {
    kind = prop "type" n;
    enabled = get_node_prop_enabled xml (some n) "enabled" false;
  }

  -- From `c`, the children give `r`: of each name the last child counts, but all management
  -- addresses and capabilities are kept in order.
  abbrev pub DescribesChassis : Chassis → List xml.Node → Chassis → Type 0
  DescribesChassis c ns r =
      (r.id ≡ last_value xml content "id" c.id ns)
      × (r.id_type ≡ last_value xml (prop "type") "id" c.id_type ns)
      × (r.name ≡ last_value xml content "name" c.name ns)
      × (r.description ≡ last_value xml content "descr" c.description ns)
      × (r.ttl ≡ last_value xml (content_u32 xml) "ttl" c.ttl ns)
      × (r.mgmt_ip ≡ c.mgmt_ip ++ map xml.content (named_children xml "mgmt-ip" ns))
      × (r.capabilities ≡ c.capabilities ++ map capability_of (named_children xml "capability" ns))

-- A chassis of which nothing is known.
abbrev pub no_chassis : Chassis
no_chassis = record {
  id = none;
  id_type = none;
  name = none;
  description = none;
  ttl = 0;
  mgmt_ip = [];
  capabilities = [];
}

module _ (xml : Xml) (lib : Containers) (lawful : IsLawful lib) where
  -- A child, field by field: each field looks at its own name only.
  chassis_fields : Chassis → xml.Node → Chassis
  chassis_fields c n = record {
    id = if is_named xml "id" n then content xml n else c.id;
    id_type = if is_named xml "id" n then prop xml "type" n else c.id_type;
    name = if is_named xml "name" n then content xml n else c.name;
    description = if is_named xml "descr" n then content xml n else c.description;
    ttl = if is_named xml "ttl" n then content_u32 xml n else c.ttl;
    mgmt_ip = if is_named xml "mgmt-ip" n then c.mgmt_ip ++ (xml.content n ∷ []) else c.mgmt_ip;
    capabilities =
        if is_named xml "capability" n
        then c.capabilities ++ (capability_of xml n ∷ [])
        else c.capabilities;
  }

  chassis_round-fields :
      (c : Chassis) (n : xml.Node) → chassis_round xml lib c n ≡ chassis_fields c n
  unfolding chassis_round chassis_fields is_named text str_eq get_capability_from_node
      capability_init push
  chassis_round-fields c n = elim (Bool-cases (is_named xml "id" n)) [
    | inl e ↦ rw (is_named→eq xml "id" n e)
    | inr e1 ↦ elim (Bool-cases (is_named xml "name" n)) [
      | inl e ↦ rw (is_named→eq xml "name" n e)
      | inr e2 ↦ elim (Bool-cases (is_named xml "descr" n)) [
        | inl e ↦ rw (is_named→eq xml "descr" n e)
        | inr e3 ↦ elim (Bool-cases (is_named xml "ttl" n)) [
          | inl e ↦ rw (is_named→eq xml "ttl" n e)
          | inr e4 ↦ elim (Bool-cases (is_named xml "mgmt-ip" n)) [
            | inl e ↦ rw (is_named→eq xml "mgmt-ip" n e, lawful.svec_add_nocopy-append)
            | inr e5 ↦ elim (Bool-cases (is_named xml "capability" n)) [
              | inl e ↦ rw (is_named→eq xml "capability" n e, lawful.list_push_back-append)
              | inr e6 ↦ rw (e1, e2, e3, e4, e5, e6)
            ]
          ]
        ]
      ]
    ]
  ]

  chassis_fields-Describes :
      (c : Chassis) (n : xml.Node) (ns : List xml.Node) (r : Chassis)
      → DescribesChassis xml (chassis_fields c n) ns r
      → DescribesChassis xml c (n ∷ ns) r
  unfolding last_value named_children chassis_fields
  chassis_fields-Describes c n ns r (i, j, k, l, m, o, p) = (
    i,
    j,
    k,
    l,
    m,
    o ∙ append-if xml.content (is_named xml "mgmt-ip" n) c.mgmt_ip n _,
    p ∙ append-if (capability_of xml) (is_named xml "capability" n) c.capabilities n _,
  )

  over_children-Describes :
      (c : Chassis) (ns : List xml.Node)
      → DescribesChassis xml c ns (over_children xml (chassis_round xml lib) c ns)
  unfolding over_children last_value named_children
  over_children-Describes c [] =
      (refl, refl, refl, refl, refl, sym (append-nil c.mgmt_ip), sym (append-nil c.capabilities))
  over_children-Describes c (n ∷ ns) =
      chassis_fields-Describes c n ns _
        (rw (← chassis_round-fields c n) (over_children-Describes (chassis_round xml lib c n) ns))

  -- Of a node named `chassis`, and of no other, the function makes a chassis. It is the one that
  -- the children describe: for the id and its type, the name, the description and the TTL the last
  -- child of the name counts, and the management addresses and the capabilities are all there, in
  -- order.
  pub get_chassis_from_node_lem :
      (node : xml.Node)
      → Cases
          (is_named xml "chassis" node)
          ((r : Chassis) × (get_chassis_from_node xml lib node ≡ some r)
            × DescribesChassis xml no_chassis (xml.children node) r)
          (get_chassis_from_node xml lib node ≡ none)
  unfolding get_chassis_from_node
  get_chassis_from_node_lem node =
      Cases_intro (is_named xml "chassis" node)
        (λ e. (
          over_children xml (chassis_round xml lib) no_chassis (xml.children node),
          rw e,
          over_children-Describes no_chassis (xml.children node),
        ))
        (λ e. rw e)

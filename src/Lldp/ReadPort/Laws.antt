-- ===== src/Lldp/ReadPort/Laws.antt =====
-- lldp.c: the port and the negotiation that are read are those that the children describe.
use tsn.Base.{
  Cases, Cases_intro, Bool, false, Option, none, some, List, [], ◌∷◌, ◌++◌, ◌≡◌, refl, sym, ◌∙◌,
  CStr, String, text, str_eq, map, append-nil, Bool-cases, inl, inr, if◌then◌else◌,
}
use tsn.Runtime.Containers.{Containers, IsLawful}
use tsn.Lldp.{Advertised, Negotiation, Port, Xml}
use tsn.Lldp.Props.{
  is_named, get_node_content_str, get_node_prop_str, get_node_prop_bool, content_u32, over_children,
  push,
}
use tsn.Lldp.Props.Laws.{last_value, named_children, is_named→eq, append-if}
use tsn.Lldp.ReadPort.{
  port_round, negotiation_round, advertised_init, get_advertised_from_node,
  get_negotiation_from_node, get_port_from_node,
}

module _ (xml : Xml) where
  abbrev prop : String → xml.Node → Option CStr
  prop key n = get_node_prop_str xml (some n) key

  abbrev flag : String → xml.Node → Bool
  flag key n = get_node_prop_bool xml (some n) key false

  abbrev content : xml.Node → Option CStr
  content n = get_node_content_str xml (some n)

  abbrev advertised_of : xml.Node → Advertised
  advertised_of n = record { kind = prop "type" n; hd = flag "hd" n; fd = flag "fd" n }

  -- From `c`, the children give `r`: all advertised modes in order, and the last current one. The
  -- flags are not touched.
  abbrev pub DescribesNegotiation : Negotiation → List xml.Node → Negotiation → Type 0
  DescribesNegotiation c ns r =
      (r.advertise ≡ c.advertise ++ map advertised_of (named_children xml "advertised" ns))
      × (r.current ≡ last_value xml content "current" c.current ns)
      × (r.supported ≡ c.supported)
      × (r.enabled ≡ c.enabled)

  -- What the node itself says, before its children are read.
  abbrev pub negotiation_of : xml.Node → Negotiation
  negotiation_of n = record {
    advertise = [];
    supported = flag "supported" n;
    enabled = flag "enabled" n;
    current = none;
  }

module _ (xml : Xml) (lib : Containers) (lawful : IsLawful lib) where
  negotiation_fields : Negotiation → xml.Node → Negotiation
  negotiation_fields c n = record {
    advertise =
        if is_named xml "advertised" n
        then c.advertise ++ (advertised_of xml n ∷ [])
        else c.advertise;
    supported = c.supported;
    enabled = c.enabled;
    current = if is_named xml "current" n then content xml n else c.current;
  }

  negotiation_round-fields :
      (c : Negotiation) (n : xml.Node) → negotiation_round xml lib c n ≡ negotiation_fields c n
  unfolding negotiation_round negotiation_fields is_named text str_eq get_advertised_from_node
      advertised_init push
  negotiation_round-fields c n = elim (Bool-cases (is_named xml "advertised" n)) [
    | inl e ↦ rw (is_named→eq xml "advertised" n e, lawful.list_push_back-append)
    | inr e1 ↦ elim (Bool-cases (is_named xml "current" n)) [
      | inl e ↦ rw (is_named→eq xml "current" n e)
      | inr e2 ↦ rw (e1, e2)
    ]
  ]

  negotiation_fields-Describes :
      (c : Negotiation) (n : xml.Node) (ns : List xml.Node) (r : Negotiation)
      → DescribesNegotiation xml (negotiation_fields c n) ns r
      → DescribesNegotiation xml c (n ∷ ns) r
  unfolding last_value named_children negotiation_fields
  negotiation_fields-Describes c n ns r (i, j, k, l) =
      (i ∙ append-if (advertised_of xml) (is_named xml "advertised" n) c.advertise n _, j, k, l)

  negotiation-Describes :
      (c : Negotiation) (ns : List xml.Node)
      → DescribesNegotiation xml c ns (over_children xml (negotiation_round xml lib) c ns)
  unfolding over_children last_value named_children
  negotiation-Describes c [] = (sym (append-nil c.advertise), refl, refl, refl)
  negotiation-Describes c (n ∷ ns) = negotiation_fields-Describes c n ns _ (
      rw (← negotiation_round-fields c n)
        (negotiation-Describes (negotiation_round xml lib c n) ns))

  -- Of a node named `auto-negotiation`, and of no other, the function makes a negotiation: its
  -- flags are the node's, the advertised modes are those of the children in order, and the current
  -- mode is the last that a child gives.
  pub get_negotiation_from_node_lem :
      (node : xml.Node)
      → Cases
          (is_named xml "auto-negotiation" node)
          ((r : Negotiation) × (get_negotiation_from_node xml lib node ≡ some r)
            × DescribesNegotiation xml (negotiation_of xml node) (xml.children node) r)
          (get_negotiation_from_node xml lib node ≡ none)
  unfolding get_negotiation_from_node
  get_negotiation_from_node_lem node =
      Cases_intro (is_named xml "auto-negotiation" node)
        (λ e. (
          over_children xml (negotiation_round xml lib) (negotiation_of xml node)
              (xml.children node),
          rw e,
          negotiation-Describes (negotiation_of xml node) (xml.children node),
        ))
        (λ e. rw e)

-- A port of which nothing is known.
abbrev pub no_port : Port
no_port = record {
  id = none;
  id_type = none;
  description = none;
  ttl = 0;
  mfs = 0;
  negotiation = none;
}

module _ (xml : Xml) (lib : Containers) where
  -- From `c`, the children give `r`: of each name the last child counts.
  abbrev pub DescribesPort : Port → List xml.Node → Port → Type 0
  DescribesPort c ns r =
      (r.id ≡ last_value xml (content xml) "id" c.id ns)
      × (r.id_type ≡ last_value xml (prop xml "type") "id" c.id_type ns)
      × (r.description ≡ last_value xml (content xml) "descr" c.description ns)
      × (r.ttl ≡ last_value xml (content_u32 xml) "ttl" c.ttl ns)
      × (r.mfs ≡ last_value xml (content_u32 xml) "mfs" c.mfs ns)
      × (r.negotiation
          ≡ last_value xml (get_negotiation_from_node xml lib) "auto-negotiation" c.negotiation ns)

  port_fields : Port → xml.Node → Port
  port_fields c n = record {
    id = if is_named xml "id" n then content xml n else c.id;
    id_type = if is_named xml "id" n then prop xml "type" n else c.id_type;
    description = if is_named xml "descr" n then content xml n else c.description;
    ttl = if is_named xml "ttl" n then content_u32 xml n else c.ttl;
    mfs = if is_named xml "mfs" n then content_u32 xml n else c.mfs;
    negotiation =
        if is_named xml "auto-negotiation" n
        then get_negotiation_from_node xml lib n
        else c.negotiation;
  }

  port_round-fields : (c : Port) (n : xml.Node) → port_round xml lib c n ≡ port_fields c n
  unfolding port_round port_fields is_named text str_eq
  port_round-fields c n = elim (Bool-cases (is_named xml "id" n)) [
    | inl e ↦ rw (is_named→eq xml "id" n e)
    | inr e1 ↦ elim (Bool-cases (is_named xml "descr" n)) [
      | inl e ↦ rw (is_named→eq xml "descr" n e)
      | inr e2 ↦ elim (Bool-cases (is_named xml "ttl" n)) [
        | inl e ↦ rw (is_named→eq xml "ttl" n e)
        | inr e3 ↦ elim (Bool-cases (is_named xml "mfs" n)) [
          | inl e ↦ rw (is_named→eq xml "mfs" n e)
          | inr e4 ↦ elim (Bool-cases (is_named xml "auto-negotiation" n)) [
            | inl e ↦ rw (is_named→eq xml "auto-negotiation" n e)
            | inr e5 ↦ rw (e1, e2, e3, e4, e5)
          ]
        ]
      ]
    ]
  ]

  port_fields-Describes :
      (c : Port) (n : xml.Node) (ns : List xml.Node) (r : Port)
      → DescribesPort (port_fields c n) ns r
      → DescribesPort c (n ∷ ns) r
  unfolding last_value port_fields
  port_fields-Describes c n ns r h = h

  port-Describes :
      (c : Port) (ns : List xml.Node)
      → DescribesPort c ns (over_children xml (port_round xml lib) c ns)
  unfolding over_children last_value
  port-Describes c [] = (refl, refl, refl, refl, refl, refl)
  port-Describes c (n ∷ ns) =
      port_fields-Describes c n ns _
        (rw (← port_round-fields c n) (port-Describes (port_round xml lib c n) ns))

  -- Of a node named `port`, and of no other, the function makes a port: for each field the last
  -- child of its name counts, and a field that no child gives is 0 or NULL.
  pub get_port_from_node_lem :
      (node : xml.Node)
      → Cases
          (is_named xml "port" node)
          ((r : Port) × (get_port_from_node xml lib node ≡ some r)
            × DescribesPort no_port (xml.children node) r)
          (get_port_from_node xml lib node ≡ none)
  unfolding get_port_from_node
  get_port_from_node_lem node =
      Cases_intro (is_named xml "port" node)
        (λ e. (
          over_children xml (port_round xml lib) no_port (xml.children node),
          rw e,
          port-Describes no_port (xml.children node),
        ))
        (λ e. rw e)

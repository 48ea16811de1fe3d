-- ===== src/Lldp/Parse/Laws.antt =====
-- lldp.c: what is read of an interface's node, and of its VLANs.
use tsn.Base.{
  Cases, Cases_intro, none, some, List, [], ◌∷◌, ◌++◌, ◌≡◌, refl, sym, ◌∙◌, text, str_eq, map,
  append-nil, Bool-cases, inl, inr, if◌then◌else◌,
}
use tsn.Runtime.Containers.{Containers, IsLawful}
use tsn.Lldp.{Lldp, Xml}
use tsn.Lldp.Props.{is_named, over_children}
use tsn.Lldp.Props.Laws.{last_value, named_children, is_named→eq, append-if}
use tsn.Lldp.ReadChassis.{get_chassis_from_node}
use tsn.Lldp.ReadPort.{get_port_from_node}
use tsn.Lldp.Parse.{get_vlan_from_node, get_ppvid_from_node, lldp_round, get_lldp_from_node}

module _ (xml : Xml) (lib : Containers) where
  -- From `c`, the children give `r`: the last chassis, port, VLAN and PPVID count, and all protocol
  -- identities are kept in order. The attributes of the node are not read here.
  abbrev pub DescribesLldp : Lldp → List xml.Node → Lldp → Type 0
  DescribesLldp c ns r =
      (r.chassis ≡ last_value xml (get_chassis_from_node xml lib) "chassis" c.chassis ns)
      × (r.port ≡ last_value xml (get_port_from_node xml lib) "port" c.port ns)
      × (r.vlan ≡ last_value xml (get_vlan_from_node xml lib) "vlan" c.vlan ns)
      × (r.ppvid ≡ last_value xml (get_ppvid_from_node xml lib) "ppvid" c.ppvid ns)
      × (r.pi ≡ c.pi ++ map xml.content (named_children xml "pi" ns))
      × (r.name ≡ c.name)
      × (r.via ≡ c.via)
      × (r.rid ≡ c.rid)
      × (r.age ≡ c.age)

  lldp_fields : Lldp → xml.Node → Lldp
  lldp_fields c n = record {
    name = c.name;
    via = c.via;
    rid = c.rid;
    age = c.age;
    chassis = if is_named xml "chassis" n then get_chassis_from_node xml lib n else c.chassis;
    port = if is_named xml "port" n then get_port_from_node xml lib n else c.port;
    vlan = if is_named xml "vlan" n then get_vlan_from_node xml lib n else c.vlan;
    ppvid = if is_named xml "ppvid" n then get_ppvid_from_node xml lib n else c.ppvid;
    pi = if is_named xml "pi" n then c.pi ++ (xml.content n ∷ []) else c.pi;
  }

-- An `lldp_t` of which nothing is known.
abbrev pub no_lldp : Lldp
no_lldp = record {
  name = none;
  via = none;
  rid = none;
  age = 0;
  chassis = none;
  port = none;
  vlan = none;
  ppvid = none;
  pi = [];
}

module _ (xml : Xml) (lib : Containers) (lawful : IsLawful lib) where
  lldp_round-fields : (c : Lldp) (n : xml.Node) → lldp_round xml lib c n ≡ lldp_fields xml lib c n
  unfolding lldp_round lldp_fields is_named text str_eq
  lldp_round-fields c n = elim (Bool-cases (is_named xml "pi" n)) [
    | inl e ↦ rw (is_named→eq xml "pi" n e, lawful.svec_add_nocopy-append)
    | inr e1 ↦ elim (Bool-cases (is_named xml "vlan" n)) [
      | inl e ↦ rw (is_named→eq xml "vlan" n e)
      | inr e2 ↦ elim (Bool-cases (is_named xml "ppvid" n)) [
        | inl e ↦ rw (is_named→eq xml "ppvid" n e)
        | inr e3 ↦ elim (Bool-cases (is_named xml "chassis" n)) [
          | inl e ↦ rw (is_named→eq xml "chassis" n e)
          | inr e4 ↦ elim (Bool-cases (is_named xml "port" n)) [
            | inl e ↦ rw (is_named→eq xml "port" n e)
            | inr e5 ↦ rw (e1, e2, e3, e4, e5)
          ]
        ]
      ]
    ]
  ]

  lldp_fields-Describes :
      (c : Lldp) (n : xml.Node) (ns : List xml.Node) (r : Lldp)
      → DescribesLldp xml lib (lldp_fields xml lib c n) ns r
      → DescribesLldp xml lib c (n ∷ ns) r
  unfolding last_value named_children lldp_fields
  lldp_fields-Describes c n ns r (i, j, k, l, m, o, p, q, v) =
      (i, j, k, l, m ∙ append-if xml.content (is_named xml "pi" n) c.pi n _, o, p, q, v)

  lldp-Describes :
      (c : Lldp) (ns : List xml.Node)
      → DescribesLldp xml lib c ns (over_children xml (lldp_round xml lib) c ns)
  unfolding over_children last_value named_children
  lldp-Describes c [] = (refl, refl, refl, refl, sym (append-nil c.pi), refl, refl, refl, refl)
  lldp-Describes c (n ∷ ns) =
      lldp_fields-Describes c n ns _
        (rw (← lldp_round-fields c n) (lldp-Describes (lldp_round xml lib c n) ns))

  -- Of a node named `interface`, and of no other, the function makes an `lldp_t`: the last chassis,
  -- port, VLAN and PPVID among the children count, all protocol identities are kept in order, and
  -- the attributes of the node are left out.
  pub get_lldp_from_node_lem :
      (node : xml.Node)
      → Cases
          (is_named xml "interface" node)
          ((r : Lldp) × (get_lldp_from_node xml lib node ≡ some r)
            × DescribesLldp xml lib no_lldp (xml.children node) r)
          (get_lldp_from_node xml lib node ≡ none)
  unfolding get_lldp_from_node
  get_lldp_from_node_lem node =
      Cases_intro (is_named xml "interface" node)
        (λ e. (
          over_children xml (lldp_round xml lib) no_lldp (xml.children node),
          rw e,
          lldp-Describes no_lldp (xml.children node),
        ))
        (λ e. rw e)

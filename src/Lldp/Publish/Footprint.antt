-- ===== src/Lldp/Publish/Footprint.antt =====
-- lldp.c, the body of the loop of lldp_port_provider: the calls that it makes.
use tsn.Base.{ℕ, CStr, Bool, Option, none, some, String, ℤ}
use tsn.Runtime.{Trace, Env}
use tsn.Runtime.Containers.{Containers}
use tsn.Runtime.Always.{IsOrder, Always, Steps, always_rules}
use tsn.Runtime.Footprint.{makes_nodes}
use tsn.Lldp.{Xml, Lldp}
use tsn.Lldp.Publish.{age_at, read_age, add_new_string_path, publish, provide_neighbour}

module _ (env : Env) {R : Trace → Trace → Type 0} (order : IsOrder R)
    (makes : Steps R makes_nodes) where
  age_at-Always : (age : Option CStr) (now : Option ℕ) → Always R (age_at age now)
  unfolding age_at
  age_at-Always age none = search always_rules
  age_at-Always age (some now) = search always_rules

  read_age-Always : (age : Option CStr) → Always R (read_age env age)
  unfolding read_age
  read_age-Always age = search (always_rules, makes, age_at-Always)

  add_new_string_path-Always :
      (name port_mac : CStr) (age : ℕ) (index : ℤ) (node_name : String) (value : Option CStr)
      → Always R (add_new_string_path name port_mac age index node_name value)
  unfolding add_new_string_path
  add_new_string_path-Always name port_mac age index node_name value = search (always_rules, makes)

  publish-Always : (start : Bool) (lldp : Lldp) → Always R (publish env start lldp)
  unfolding publish
  publish-Always start lldp = search (always_rules, makes, add_new_string_path-Always) depth 24

  pub provide_neighbour-Always :
      (lib : Containers) (xml : Xml) (start : Bool) (current : xml.Node)
      → Always R (provide_neighbour env lib xml start current)
  unfolding provide_neighbour
  provide_neighbour-Always lib xml start current =
      search (always_rules, read_age-Always, publish-Always) depth 12

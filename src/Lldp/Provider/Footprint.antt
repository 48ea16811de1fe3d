-- ===== src/Lldp/Provider/Footprint.antt =====
-- lldp.c, lldp_port_provider: the calls that it makes.
use tsn.Base.{Bool, true, false, Option, none, some}
use tsn.Runtime.{Trace, Env, Call, popen, pclose}
use tsn.Runtime.Containers.{Containers}
use tsn.Runtime.Always.{IsOrder, Always, Steps, always_rules}
use tsn.Runtime.Footprint.{makes_nodes, holds_context}
use tsn.Lldp.{Xml}
use tsn.Lldp.Publish.Footprint.{provide_neighbour-Always}
use tsn.Lldp.Provider.{child_round, provide_document, provide_output, lldp_port_provider}

-- The calls of the provider.
abbrev pub runs_lldpcli : Call → Bool
runs_lldpcli (popen command) = true
runs_lldpcli pclose = true
runs_lldpcli _ = false

module _ (env : Env) (lib : Containers) (xml : Xml) {R : Trace → Trace → Type 0} (order : IsOrder R)
    (makes : Steps R makes_nodes) (holds : Steps R holds_context)
    (runs : Steps R runs_lldpcli) where
  child_round-Always : (start : Bool) (n : xml.Node) → Always R (child_round env lib xml start n)
  unfolding child_round
  child_round-Always start n = search (always_rules, makes, provide_neighbour-Always) depth 12

  provide_document-Always :
      (doc : Option (Option xml.Node)) → Always R (provide_document env lib xml doc)
  unfolding provide_document
  provide_document-Always none = search always_rules
  provide_document-Always (some none) = search always_rules
  provide_document-Always (some (some root)) = search (always_rules, child_round-Always) depth 12

  pub lldp_port_provider-Always : Always R (lldp_port_provider env lib xml)
  unfolding lldp_port_provider provide_output
  lldp_port_provider-Always = search (always_rules, holds, runs, provide_document-Always) depth 12

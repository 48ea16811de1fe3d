-- ===== src/Tests/Bridge.antt =====
-- The theorems on bridge.c at concrete inputs.
use tsn.Base.{◌≡◌, ◌++◌, concat_map, ◌∷◌, [], text}
use tsn.Runtime.Laws.{Returns}
use tsn.Runtime.Records.{sets}
use tsn.Bridge.Vlan.{parse_vlans, zero_vlan}
use tsn.Bridge.Vlan.Laws.{entries_of}
use tsn.Bridge.Vlan.Laws.{Reads, parse_vlans-Reads}
use tsn.Bridge.Collect.{Bridges}
use tsn.Bridge.Save.{save_bridges}
use tsn.Bridge.Save.Laws.{bridge_items, save_bridges-sets}
use tsn.Runtime.Records.{Keeps, stream}
use tsn.Bridge.Collect.{collect_bridges}
use mathlib.Core.List.{Perm}
use tsn.Base.{arith, refl, true, false, some}
use tsn.Runtime.{Env, Link, if_nameindex, ◌>>=◌}
use tsn.Bridge.Publish.{BridgesSet, collect_bridges-save_bridges}
use tsn.Runtime.Netlink.{named}
use tsn.Bridge.Collect.Content.{Machine, IsMachine, Collects, collect_bridges-Collects}
use tsn.Tests.World.{list_containers-IsLawful}
use tsn.Bridge.Collect.Laws.{collect_bridges-Keeps}
use tsn.Tests.World.{world, list_containers, broken_world}
use tsn.Tests.Documents.{Json, object, json_of}

abbrev pub two_vlans : Json
two_vlans = object (text "br0") (10 ∷ 20 ∷ [])

parse_vlans-Reads_example :
    Reads
      (entries_of (json_of two_vlans) (text "br0") (text "{}"))
      (parse_vlans (json_of two_vlans) (text "br0") (text "{}"))
parse_vlans-Reads_example = parse_vlans-Reads (json_of two_vlans) (text "br0") (text "{}")

abbrev pub one_bridge : Bridges
one_bridge =
    (
      (text "br0"),
      record {
        name = text "br0";
        index = 3;
        hw_addr = text "00:04:9f:05:de:0a";
        vlan = record zero_vlan { vlan_bitmap = 10 ∷ 20 ∷ 0 ∷ [] };
      },
    )
    ∷ []

save_bridges-sets_example :
    Returns
      (λ _ u. sets u ≡ sets [] ++ concat_map bridge_items one_bridge)
      (save_bridges broken_world one_bridge [])
save_bridges-sets_example = save_bridges-sets broken_world one_bridge []

collect_bridges-Keeps_example :
    Returns
      (λ _ u. Keeps world stream 0 [] u)
      (collect_bridges world list_containers (json_of two_vlans) [] [])
collect_bridges-Keeps_example =
    collect_bridges-Keeps world list_containers (json_of two_vlans) stream [] []

-- A world in which every link is a bridge.
abbrev pub br0_link : Link
br0_link = record {
  name = text "br0";
  arptype = 1;
  kind = some (text "bridge");
  flags = 1;
  ifindex = 3;
  addr = text "00:04:9f:05:de:0a";
  master = 0;
  is_vlan = false;
  vlan_id = 0;
  is_bridge = true;
  bridge_pvid = 1;
  operstate = 6;
  stat = λ id. 0;
}

abbrev bridged_world : Env
bridged_world = record world {
  if_nameindex = λ t. record { if_index = 3; if_name = some (text "br0") } ∷ [];
  link_get_by_name = λ t name. some br0_link;
}

abbrev one_machine : Machine
one_machine = record { by_name = λ name. some br0_link; output = λ name. text "<lldp/>" }

bridged_world-IsMachine : IsMachine bridged_world one_machine
unfolding text
bridged_world-IsMachine = record {
  reads_name = λ t name. refl;
  runs = λ t name. refl;
  prints = λ t name. refl;
  no_nul = λ name. omega arith;
}

collect_bridges-Collects_example :
    Returns
      (λ r u.
        (made : Bridges) × Collects
          (json_of two_vlans)
          one_machine
          (named (bridged_world.if_nameindex (if_nameindex ∷ [])))
          made
        × Perm r made
        × (sets u ≡ sets []))
      (collect_bridges bridged_world list_containers (json_of two_vlans) [] [])
collect_bridges-Collects_example =
    collect_bridges-Collects bridged_world list_containers (json_of two_vlans)
      list_containers-IsLawful one_machine bridged_world-IsMachine [] refl

collect_bridges-save_bridges_example :
    Returns
      (λ _ u. BridgesSet bridged_world list_containers (json_of two_vlans) one_machine [] u)
      ((collect_bridges bridged_world list_containers (json_of two_vlans) []
          >>= save_bridges bridged_world)
        [])
collect_bridges-save_bridges_example =
    collect_bridges-save_bridges bridged_world list_containers (json_of two_vlans) one_machine
      list_containers-IsLawful bridged_world-IsMachine [] refl

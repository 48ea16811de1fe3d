-- ===== src/Tests/Main.antt =====
-- The theorems on whole parts of main.c at concrete inputs.
use tsn.Base.{◌≡◌, Bool, true, false, [], ◌∷◌, CStr, none}
use tsn.Runtime.{Env, Trace, siocethtool}
use tsn.Runtime.Always.{trace_of}
use tsn.Interface.Names.{Names}
use tsn.Main.{provider_cb, data_provider, main}
use tsn.Main.Served.{subscriptions, keys, provider_of, providers, data_provider-provider_cb}
use tsn.Runtime.Leaks.{Leaks}
use tsn.Main.Descriptors.{main-Leaks}
use tsn.Tests.World.{world, list_containers}
use tsn.Tests.Interface.{by_number, eno0, eno0_link, linked_world}
use tsn.Tests.Lldp.{doc}
use tsn.Tests.Providers.{seconds}
use tsn.Tests.Documents.{json_of}
use tsn.Tests.Threads.{no_vlans}
use tsn.Tests.Bridge.{br0_link}
use tsn.Runtime.{Link}
use tsn.Runtime.Ends.{Ends}
use tsn.Interface.Collect.Content.{Links}
use tsn.Bridge.Collect.Content.{Machine}
use tsn.Base.{str_eq, if◌then◌else◌, text, some}

data_provider-provider_cb_example :
    (subscriptions (trace_of (data_provider world list_containers 2 eno0 []))
      ≡ keys (providers world seconds list_containers doc))
    × ((module_name xpath : CStr) (names : Names)
        → provider_cb world seconds list_containers doc module_name xpath names
          ≡ provider_of module_name xpath (providers world seconds list_containers doc) names)
data_provider-provider_cb_example =
    data_provider-provider_cb world seconds list_containers doc 2 eno0 []

-- The kernel never gives a speed.
abbrev gives_no_speed : Trace → Bool
gives_no_speed (siocethtool name ∷ t) = false
gives_no_speed _ = true

abbrev speedless_world : Env
speedless_world = record linked_world { succeeds = gives_no_speed }

main-Leaks_example :
    Leaks speedless_world []
      (trace_of (main speedless_world list_containers doc (json_of no_vlans) 2 none []))
main-Leaks_example = main-Leaks speedless_world list_containers doc (json_of no_vlans) 2 none []

-- A machine with one port and one bridge.
abbrev link_named : CStr → Link
link_named name = if str_eq name (text "br0") then br0_link else eno0_link

abbrev small_world : Env
small_world = record world {
  if_nameindex = λ t.
      record { if_index = 2; if_name = some (text "eno0") }
      ∷ record { if_index = 3; if_name = some (text "br0") }
      ∷ [];
  link_get_by_name = λ t name. some (link_named name);
  link_get = λ t master. by_number master;
}

abbrev small_links : Links
small_links = record { by_name = λ name. some (link_named name); by_index = by_number }

abbrev small_machine : Machine
small_machine = record { by_name = λ name. some (link_named name); output = λ name. text "<lldp/>" }

-- ===== src/Tests/Providers.antt =====
-- The theorems on the providers of interface.c at concrete inputs.
use tsn.Base.{ℕ, none, All, true, ◌≡◌, refl, Option, some, List, [], ◌∷◌, CStr, text}
use tsn.Runtime.{Link}
use tsn.Runtime.Laws.{Returns}
use tsn.Runtime.Netlink.{named}
use tsn.Utils.Clock.{CTime}
use tsn.Interface.Providers.{interface_statistics_provider, interface_oper_status_provider}
use tsn.Interface.Providers.Nodes.{Statistics, OperStates}
use tsn.Runtime.Trees.{Node, Made}
use tsn.Interface.Names.Known.{CanName, names_at}
use tsn.Interface.Providers.Laws.{
  opened, Unpublished, interface_statistics_provider-Statistics,
  interface_oper_status_provider-OperStates, interface_providers_unfilled,
}
use tsn.Tests.Interface.{eno0_link, linked_world}
use tsn.Tests.World.{broken_world, list_containers}

-- A clock whose broken-down time is the number of seconds.
abbrev pub seconds : CTime
seconds = record { Tm = ℕ; localtime = λ t. some t; strftime = λ format tm. format }

abbrev every_link : CStr → Option Link
every_link name = some eno0_link

abbrev both_ports : List CStr
both_ports = text "eno0" ∷ text "swp1" ∷ []

-- The names that the providers list when they are called for the first time.
abbrev listed : List CStr
listed = names_at linked_world list_containers every_link none (opened [])

can_list : CanName linked_world list_containers every_link none (opened [])
unfolding named
can_list = (refl, ((λ port. (eno0_link, refl)), tt))

interface_statistics_provider-Statistics_example :
    Returns
      (λ r u.
        (r ≡ some listed)
        × ((made : List Node) × Statistics every_link seconds true listed made
            × Made linked_world made [] u))
      (interface_statistics_provider linked_world seconds list_containers none [])
interface_statistics_provider-Statistics_example =
    interface_statistics_provider-Statistics linked_world seconds list_containers every_link
      (λ t name. refl) none [] refl can_list

have_links : (names : List CStr) → All (λ name. (link : Link) × (every_link name ≡ some link)) names
have_links [] = tt
have_links (name ∷ names) = ((eno0_link, refl), have_links names)

interface_oper_status_provider-OperStates_example :
    Returns
      (λ r u.
        (r ≡ some listed)
        × ((made : List Node) × OperStates every_link (true, []) listed made
            × Made linked_world made [] u))
      (interface_oper_status_provider linked_world seconds list_containers none [])
interface_oper_status_provider-OperStates_example =
    interface_oper_status_provider-OperStates linked_world seconds list_containers every_link
      (λ t name. refl) none [] refl can_list (have_links listed)

interface_providers_unfilled_example :
    Returns
      (Unpublished broken_world seconds list_containers (some both_ports) [])
      (interface_statistics_provider broken_world seconds list_containers (some both_ports) [])
    × Returns
        (Unpublished broken_world seconds list_containers (some both_ports) [])
        (interface_oper_status_provider broken_world seconds list_containers (some both_ports) [])
interface_providers_unfilled_example =
    interface_providers_unfilled broken_world seconds list_containers (some both_ports) [] refl

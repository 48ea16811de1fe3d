-- ===== src/Tests/Threads.antt =====
-- The theorems on threads and on the main loop at concrete inputs.
use tsn.Base.{strstr, true, Cases, Option, some, ◌≡◌, refl, none, List, [], ◌∷◌, CStr, text, arith}
use tsn.Runtime.Netlink.{named, is_switch_port}
use tsn.Interface.Names.{get_interface_names}
use tsn.Interface.Names.Laws.{Ended, get_interface_names-fill}
use tsn.Runtime.{
  done, Link, nl_socket_free, nl_close, rtnl_link_alloc_cache, nl_connect, nl_socket_alloc,
}
use tsn.Runtime.Laws.{Returns}
use tsn.Runtime.Ends.{Ends}
use tsn.Interface.Names.Threads.{
  null, returned, hit, next, by_statistics, by_oper_status, set, filling, seen, broken, read,
  System, Reach, here, called,
}
use tsn.Interface.Names.Threads.Laws.{IsServed, names_race, names_filled}
use tsn.Interface.Ips.Rounds.{addresses_in}
use tsn.Interface.Save.{update_ips}
use tsn.Interface.Save.Update.{Refreshed, update_ips-Refreshed}
use tsn.Tests.Interface.{eno0, eno0_link, linked_world}
use tsn.Tests.Documents.{Json, object}
use tsn.Tests.World.{world, addresses, list_containers, list_containers-IsLawful}

-- Two names that the machine has.
abbrev two_names : List CStr
two_names = text "eno0" ∷ text "swp1" ∷ []

names_race_example :
    ((s : System list_containers two_names) × Reach list_containers two_names
        (called list_containers two_names null)
        s
      × (s.oper_status ≡ seen (text "eno0" ∷ []))
      × (s.statistics ≡ filling (text "swp1" ∷ [])))
    × ((s : System list_containers two_names) × Reach list_containers two_names
          (called list_containers two_names null)
          s
        × (s.oper_status ≡ broken))
names_race_example = names_race list_containers two_names (text "eno0" ∷ []) (text "swp1" ∷ []) refl

-- The first thread has read a complete set, and the second has its pointer.
both_served :
    Reach list_containers two_names
      (called list_containers two_names (set two_names))
      (record { names = set two_names; statistics = seen two_names; oper_status = returned })
both_served =
    next (next (next here (by_statistics (hit refl))) (by_oper_status (hit refl)))
      (by_statistics (read refl))

names_filled_example :
    (set two_names ≡ set two_names)
    × IsServed two_names (seen two_names)
    × IsServed two_names returned
names_filled_example = names_filled list_containers two_names two_names both_served

update_ips-Refreshed_example :
    Returns
      (λ _ u. Refreshed world (λ k. addresses_in world list_containers eno0 k addresses) [] u)
      (update_ips world list_containers eno0 [])
update_ips-Refreshed_example =
    update_ips-Refreshed world list_containers eno0 list_containers-IsLawful []
      (omega arith, (omega arith, (omega arith, tt)))

abbrev pub no_vlans : Json
no_vlans = object (text "eno0") []

abbrev every_link : CStr → Option Link
every_link name = some eno0_link

get_interface_names-fill_example :
    ((names : List CStr)
      → get_interface_names linked_world list_containers (some names) []
        ≡ done (names, some names) [])
    × Cases true
        (Returns
          (λ r _. r ≡ (text "eno0" ∷ [], some (text "eno0" ∷ [])))
          (get_interface_names linked_world list_containers none []))
        (Cases true
          (get_interface_names linked_world list_containers none []
            ≡ done
                ([], some [])
                (nl_socket_free ∷ nl_close ∷ rtnl_link_alloc_cache ∷ nl_connect ∷ nl_socket_alloc
                  ∷ []))
          (Ended (get_interface_names linked_world list_containers none [])))
unfolding named is_switch_port strstr text
get_interface_names-fill_example =
    get_interface_names-fill linked_world list_containers every_link (λ t name. refl) []
      ((λ port. (eno0_link, refl)), tt)

-- ===== src/Tests/Hardware.antt =====
-- The theorems on hardware.c and dbus_util.c at concrete inputs.
use tsn.Base.{arith, ◌≡◌, refl, ◌++◌, ◌∷◌, [], text, none, some, if◌then◌else◌}
use tsn.Runtime.{Env, running, done, DbusArgs, dbus_array, dbus_string, dbus_other}
use tsn.Runtime.Laws.{Returns}
use tsn.Runtime.Ends.{Ends}
use tsn.Runtime.Records.{session_ds, written}
use tsn.Lldp.Props.{is_named}
use tsn.Hardware.Texts.{find_chassis_id, description_of}
use tsn.Hardware.Texts.Laws.{first, all_mac_ids, find_chassis_id-first, description_of-line}
use tsn.Hardware.Save.{save_chassis, hardware_path}
use tsn.Hardware.Save.Laws.{class_applied, operational_items, save_chassis-written}
use tsn.Dbus.{dbus_query}
use tsn.Hardware.Versions.{get_hardware_version}
use tsn.Hardware.Versions.Laws.{Sourced, get_hardware_version-Sourced}
use tsn.Dbus.Laws.{printed, Replied, dbus_query-Ends}
use tsn.Tests.World.{world, list_containers}
use tsn.Tests.Documents.{xml_of, children_of, local_chassis_node}

find_chassis_id-first_example :
    find_chassis_id (xml_of local_chassis_node) (some (some local_chassis_node)) ≡ (
      if is_named (xml_of local_chassis_node) "local-chassis" local_chassis_node
      then first (all_mac_ids (xml_of local_chassis_node) (children_of local_chassis_node))
      else none)
find_chassis_id-first_example = find_chassis_id-first (xml_of local_chassis_node) local_chassis_node

save_chassis-written_example :
    Returns
      (λ _ u.
        (session_ds u ≡ running)
        × (written u
            ≡ (written [] ++ ((running, hardware_path (text "id") "class") ∷ []))
              ++ (if class_applied world (text "id") []
                  then operational_items (text "id")
                  else [])))
      (save_chassis world none none (some (text "id")) [])
    × (save_chassis world none none none [] ≡ done tt [])
save_chassis-written_example = save_chassis-written world (text "id") none none [] refl

-- A world in which the other program replies.
abbrev reply : DbusArgs
reply = dbus_array (dbus_string (text "a") ∷ dbus_other ∷ dbus_string (text "b") ∷ [])

abbrev replying_world : Env
replying_world = record world { dbus_args = λ t. reply }

dbus_query-Ends_example :
    Ends
      (λ _ u. Replied replying_world [] u)
      (λ u. printed u ≡ [])
      (dbus_query replying_world (text "test") [])
dbus_query-Ends_example = dbus_query-Ends replying_world (text "test") []

get_hardware_version-Sourced_example :
    Returns (Sourced world (text "uname -m")) (get_hardware_version world list_containers [])
get_hardware_version-Sourced_example = get_hardware_version-Sourced world list_containers []

description_of-line_example :
    description_of (text "Description:" ++ ((9 ∷ []) ++ ((b'O' ∷ text "penIL 1.11") ++ (10 ∷ []))))
    ≡ some (b'O' ∷ text "penIL 1.11")
unfolding text
description_of-line_example =
    description_of-line (9 ∷ []) b'O' (text "penIL 1.11") 10 [] (refl, tt) refl (ground arith) refl

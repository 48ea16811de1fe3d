-- ===== src/Lldp/Publish.antt =====
-- lldp.c, the body of the loop of lldp_port_provider: a neighbour becomes seven nodes.
pub mod Laws
pub mod Footprint
pub mod Decided
use tsn.Base.{
  ℕ, ◌<◌, Bool, true, false, Option, none, some, List, [], ◌∷◌, ◌++◌, CStr, String, text, atoi,
  decimal, format_ℤ, ℤ, drop, length, ltb, if◌then◌else◌,
}
use tsn.Runtime.{
  M, Env, run, peek, pure, crash, deref, ◌>>=◌, ◌>>◌, time, lyd_new_tree, lyd_new_path,
}
use tsn.Runtime.Containers.{Containers}
use tsn.Utils.Mac.{to_ieee_mac_addr}
use tsn.Utils.Age.{get_age}
use tsn.Lldp.{Lldp, Xml}
use tsn.Lldp.Props.{get_node_prop_str}
use tsn.Lldp.Parse.{get_lldp_from_node}

-- `format`, filled in.
unfoldable pub lldp_path : CStr → CStr → ℕ → ℤ → String → CStr
lldp_path name port_mac age index node_name =
    text "/ieee802-dot1ab-lldp:lldp/port[name='"
    ++ (name
        ++ (text "'][dest-mac-address='"
            ++ (port_mac
                ++ (text "']/remote-systems-data[time-mark='"
                    ++ (decimal age
                        ++ (text "'][remote-index='"
                            ++ (format_ℤ index ++ (text "']/" ++ text node_name))))))))

-- `s + n` as a string. Behind the closing NUL there is none.
unfoldable pub from_byte : ℕ → CStr → Option CStr
from_byte n s = if ltb (length s) n then none else some (drop n s)

-- `get_age`, which reads the string only if `time` gave a time.
age_at : Option CStr → Option ℕ → M ℕ
age_at age none = pure (get_age none [])
age_at age (some now) = do age_str ← deref age; pure (get_age (some now) age_str)

-- `lldp->age = get_age (age)`.
unfoldable pub read_age : Env → Option CStr → M ℕ
unfolding age_at
read_age env age = do run time; rawtime ← peek env.time; age_at age rawtime

-- `add_new_string_path`.
add_new_string_path : CStr → CStr → ℕ → ℤ → String → Option CStr → M (Unit {0})
add_new_string_path name port_mac age index node_name value =
    run (lyd_new_path (lldp_path name port_mac age index node_name) value)

-- `%s` in the format, for a string that may be NULL.
abbrev pub shown : Env → Option CStr → CStr
shown env none = env.null_text
shown env (some s) = s

-- From the structure to the nodes. Reading behind the end of a short id is a fault here.
unfoldable pub publish : Env → Bool → Lldp → M (Unit {0})
unfolding add_new_string_path
publish env start lldp = do
  port ← deref lldp.port
  port_id ← deref port.id
  let id = to_ieee_mac_addr port_id
  rid ← deref lldp.rid
  let index = atoi rid
  let name = shown env lldp.name
  chassis ← deref lldp.chassis
  let path = lldp_path name id lldp.age index "system-name"
  if start then run (lyd_new_tree path chassis.name) else run (lyd_new_path path chassis.name)
  add_new_string_path name id lldp.age index "system-description" chassis.description
  add_new_string_path name id lldp.age index "chassis-id-subtype" (some (text "mac-address"))
  add_new_string_path name id lldp.age index "chassis-id" chassis.id
  add_new_string_path name id lldp.age index "port-id-subtype" (some (text "mac-address"))
  half ← deref (from_byte 9 id)
  add_new_string_path name id lldp.age index "port-id" (some half)
  add_new_string_path name id lldp.age index "port-desc" port.description

-- The whole body, on a node named `interface`.
unfoldable pub provide_neighbour : Env → Containers → (xml : Xml) → Bool → xml.Node → M (Unit {0})
provide_neighbour env lib xml start current = do
  lldp ← deref (get_lldp_from_node xml lib current)
  age ← read_age env (get_node_prop_str xml (some current) "age")
  publish env start (record lldp {
    name = get_node_prop_str xml (some current) "name";
    via = get_node_prop_str xml (some current) "via";
    rid = get_node_prop_str xml (some current) "rid";
    age = age;
  })

-- ===== src/Main.antt =====
-- main.c: the startup, the callback that sysrepo calls for operational data, and the loop that
-- keeps the addresses and the speeds up to date.
pub mod Laws
pub mod Loop
pub mod Startup
pub mod Publish
pub mod Callback
pub mod Footprint
pub mod Descriptors
pub mod Served
pub mod Program
use tsn.Base.{ℕ, zero, suc, Bool, [], CStr, text, str_eq, if◌then◌else◌}
use tsn.Runtime.{
  M, Env, call, run, pure, ◌>>=◌, ◌>>◌, for_each, running, operational, sr_connect,
  sr_session_start, sr_disconnect, sr_delete_item, sr_apply_changes, sr_session_switch_ds,
  sr_oper_get_subscribe, sr_unsubscribe, sleep,
}
use tsn.Runtime.Containers.{Containers}
use tsn.Utils.Clock.{CTime}
use tsn.Lldp.{Xml}
use tsn.Lldp.Provider.{lldp_port_provider}
use tsn.Interface.Collect.{Interfaces, collect_interfaces}
use tsn.Interface.Save.{
  save_interface_running, save_interface_operational, update_ips, update_interfaces_speed,
}
use tsn.Interface.Names.{Names, destroy_interface_names}
use tsn.Interface.Providers.{interface_statistics_provider, interface_oper_status_provider}
use tsn.Hardware.Save.{save_hardware_chassis}
use tsn.Bridge.Vlan.{CJson}
use tsn.Bridge.Collect.{collect_bridges}
use tsn.Bridge.Save.{save_bridges}
use tsn.Dbus.{dbus_query}

abbrev pub statistics_xpath : CStr
statistics_xpath = text "/ietf-interfaces:interfaces/interface/statistics"

abbrev pub oper_status_xpath : CStr
oper_status_xpath = text "/ietf-interfaces:interfaces/interface/oper-status"

abbrev pub lldp_xpath : CStr
lldp_xpath = text "/ieee802-dot1ab-lldp:lldp/port"

abbrev pub interfaces_module : CStr
interfaces_module = text "ietf-interfaces"

abbrev pub lldp_module : CStr
lldp_module = text "ieee802-dot1ab-lldp"

module _ (env : Env) (clock : CTime) (lib : Containers) (xml : Xml) where
  -- The static variable of the names of interfaces is carried through.
  unfoldable pub provider_cb : CStr → CStr → Names → M Names
  provider_cb module_name xpath names =
      if str_eq module_name interfaces_module
      then if str_eq xpath statistics_xpath
        then interface_statistics_provider env clock lib names
        else if str_eq xpath oper_status_xpath
        then interface_oper_status_provider env clock lib names
        else pure names
      else if str_eq module_name lldp_module
      then if str_eq xpath lldp_xpath
        then lldp_port_provider env lib xml >> pure names
        else pure names
      else pure names

module _ (env : Env) (lib : Containers) where
  -- `while (!exit_application)`, by the number of rounds for which the variable is 0. Nothing in
  -- the program sets the variable.
  pub serve_loop : ℕ → Interfaces → M (Unit {0})
  serve_loop zero interfaces = pure tt
  serve_loop (suc rounds) interfaces =
      run sleep
      >> (update_ips env lib interfaces
          >> (update_interfaces_speed env lib interfaces >> serve_loop rounds interfaces))

  -- `if (NULL != subscription) sr_unsubscribe (subscription);`
  pub unsubscribe : Bool → M (Unit {0})
  unsubscribe subscribed = if subscribed then run sr_unsubscribe else pure tt

  -- A subscription that fails is skipped.
  unfoldable pub data_provider : ℕ → Interfaces → M (Unit {0})
  unfolding serve_loop unsubscribe
  data_provider rounds interfaces = do
    statistics ← call env (sr_oper_get_subscribe interfaces_module statistics_xpath)
    oper_status ← call env (sr_oper_get_subscribe interfaces_module oper_status_xpath)
    lldp ← call env (sr_oper_get_subscribe lldp_module lldp_xpath)
    serve_loop rounds interfaces
    unsubscribe statistics
    unsubscribe oper_status
    unsubscribe lldp

-- What the last run left in sysrepo is deleted. All failures are only logged.
delete_old : M (Unit {0})
delete_old = do
  run (sr_delete_item (text "/ieee802-dot1ab-lldp:lldp"))
  run sr_apply_changes
  run (sr_delete_item (text "/ietf-interfaces:interfaces"))
  run sr_apply_changes

-- Every interface is written to the running datastore, then to the operational one.
unfoldable pub save_interfaces : Env → Interfaces → M (Unit {0})
save_interfaces env interfaces = do
  for_each interfaces λ (key, intf). save_interface_running env intf
  run (sr_session_switch_ds operational)
  for_each interfaces λ (key, intf). save_interface_operational env intf
  run (sr_session_switch_ds running)

module _ (env : Env) (lib : Containers) (xml : Xml) (cjson : CJson) where
  -- From the session's start to the label `cleanup`.
  serve : ℕ → M (Unit {0})
  unfolding save_interfaces delete_old
  serve rounds = do
    delete_old
    interfaces ← collect_interfaces env lib []
    save_interfaces env interfaces
    save_hardware_chassis env lib xml
    update_ips env lib interfaces
    dbus_query env (text "test")
    bridges ← collect_bridges env lib cjson []
    save_bridges env bridges
    data_provider env lib rounds interfaces

  session : ℕ → M (Unit {0})
  unfolding serve
  session rounds = do
    connected ← call env sr_connect
    if connected
        then (do started ← call env sr_session_start; if started then serve rounds else pure tt)
        else pure tt

  -- `names` is the static variable of the names of interfaces when the loop ends.
  unfoldable pub main : ℕ → Names → M Names
  unfolding session
  main rounds names = do session rounds; run sr_disconnect; pure (destroy_interface_names names)

-- ===== src/Hardware/Save.antt =====
-- hardware.c, save_hardware_chassis.
pub mod Laws
pub mod Footprint
pub mod Written
use tsn.Base.{
  ℕ, Bool, true, false, Option, none, some, List, [], ◌∷◌, ◌++◌, CStr, String, text, if◌then◌else◌,
}
use tsn.Runtime.{
  M, Env, call, run, pure, ◌>>=◌, ◌>>◌, str, identityref, operational, running, sr_set_item,
  sr_apply_changes, sr_discard_changes, sr_session_switch_ds,
}
use tsn.Runtime.Containers.{Containers}
use tsn.Lldp.{Xml}
use tsn.Interface.Save.{apply_or_discard}
use tsn.Hardware.Versions.{get_hardware_version, get_software_version, get_chassis_id}

unfoldable pub hardware_path : CStr → String → CStr
hardware_path chassis_id leaf =
    text "/ietf-hardware:hardware/component[name='" ++ (chassis_id ++ (text "']/" ++ text leaf))

-- The four leaves of the operational datastore. A failure to set one is only logged.
save_operational : Env → CStr → Option CStr → Option CStr → M (Unit {0})
save_operational env chassis_id hw_version sw_version = do
  run (sr_session_switch_ds operational)
  run (sr_set_item (hardware_path chassis_id "hardware-rev") (str hw_version))
  run (sr_set_item (hardware_path chassis_id "software-rev") (str sw_version))
  run (sr_set_item (hardware_path chassis_id "serial-num") (str (some (text "202102090245"))))
  run (sr_set_item (hardware_path chassis_id "mfg-name") (str (some (text "openil"))))
  apply_or_discard env
  run (sr_session_switch_ds running)

-- The class must be set and applied before anything else is written.
unfoldable pub save_chassis : Env → Option CStr → Option CStr → Option CStr → M (Unit {0})
unfolding save_operational apply_or_discard
save_chassis env hw_version sw_version none = pure tt
save_chassis env hw_version sw_version (some chassis_id) = do
  set ←
      call env (
        sr_set_item (hardware_path chassis_id "class") (identityref (text "iana-hardware:chassis")))
  if set
      then (do
        applied ← call env sr_apply_changes
        if applied
            then save_operational env chassis_id hw_version sw_version
            else run sr_discard_changes)
      else pure tt

unfoldable pub save_hardware_chassis : Env → Containers → Xml → M (Unit {0})
unfolding save_chassis save_operational apply_or_discard
save_hardware_chassis env lib xml = do
  hw_version ← get_hardware_version env lib
  sw_version ← get_software_version env lib
  chassis_id ← get_chassis_id env lib xml
  save_chassis env hw_version sw_version chassis_id

-- ===== src/Hardware/Save/Footprint.antt =====
-- hardware.c, save_hardware_chassis: the calls that it makes.
use tsn.Base.{CStr, Option, none, some}
use tsn.Runtime.{Trace, Env}
use tsn.Runtime.Containers.{Containers}
use tsn.Runtime.Always.{IsOrder, Always, Steps, always_rules}
use tsn.Lldp.{Xml}
use tsn.Interface.Save.Footprint.{writes_items, apply_or_discard-Always}
use tsn.Hardware.Versions.Footprint.{
  ReadsTexts, get_hardware_version-Always, get_software_version-Always, get_chassis_id-Always,
}
use tsn.Hardware.Save.{save_operational, save_chassis, save_hardware_chassis}

module _ (env : Env) (lib : Containers) {R : Trace → Trace → Type 0} (order : IsOrder R)
    (reads : ReadsTexts env lib R) (writes : Steps R writes_items) where
  save_operational-Always :
      (chassis_id : CStr) (hw_version sw_version : Option CStr)
      → Always R (save_operational env chassis_id hw_version sw_version)
  unfolding save_operational
  save_operational-Always chassis_id hw_version sw_version =
      search (always_rules, writes, apply_or_discard-Always) depth 16

  save_chassis-Always :
      (hw_version sw_version chassis_id : Option CStr)
      → Always R (save_chassis env hw_version sw_version chassis_id)
  unfolding save_chassis
  save_chassis-Always hw_version sw_version none = search always_rules
  save_chassis-Always hw_version sw_version (some chassis_id) =
      search (always_rules, writes, save_operational-Always) depth 16

  pub save_hardware_chassis-Always : (xml : Xml) → Always R (save_hardware_chassis env lib xml)
  unfolding save_hardware_chassis
  save_hardware_chassis-Always xml =
      search
        (
          always_rules, reads, get_hardware_version-Always, get_software_version-Always,
          get_chassis_id-Always, save_chassis-Always,
        )
        depth 12

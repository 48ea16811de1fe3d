-- ===== src/Hardware/Versions/Footprint.antt =====
-- hardware.c, getHardwareVersion, getSoftwareVersion and getChassisId: the calls that they make.
use tsn.Base.{◌∷◌, refl, ℕ, List, CStr, Bool, true, false, Option, none, some}
use tsn.Runtime.{call, Trace, M, Env, Call, access, open_file, close_file, popen, pclose}
use tsn.Runtime.Containers.{Containers}
use tsn.Runtime.Always.{IsOrder, Always, Steps, always_rules}
use tsn.Lldp.{Xml}
use tsn.Hardware.Versions.{
  command_output, open_contents, read_both, dmi_version, read_model, model_version, uname_version,
  or_else, both_readable, get_hardware_version, get_software_version, get_chassis_id,
}

-- The calls that read files and the output of commands.
abbrev pub reads_texts : Call → Bool
reads_texts (access path) = true
reads_texts (open_file path) = true
reads_texts close_file = true
reads_texts (popen command) = true
reads_texts pclose = true
reads_texts _ = false

-- That the readers of files and of commands keep a relation.
pub record ReadsTexts (env : Env) (lib : Containers) (R : Trace → Trace → Type 0) : Type 0 where
  pub probes : (path : CStr) (t : Trace) → R t (access path ∷ t)
  pub commands : (command : CStr) → Always R (command_output env lib command)
  pub dmi : Always R (dmi_version env lib)
  pub model : Always R (model_version env lib)

module _ (env : Env) (lib : Containers) {R : Trace → Trace → Type 0} (order : IsOrder R)
    (reads : Steps R reads_texts) where
  command_output-Always : (command : CStr) → Always R (command_output env lib command)
  unfolding command_output
  command_output-Always command = search (always_rules, reads) depth 12

  open_contents-Always : (path : CStr) → Always R (open_contents env lib path)
  unfolding open_contents
  open_contents-Always path = search (always_rules, reads) depth 12

  read_both-Always : (name version : Option (List ℕ)) → Always R (read_both env lib name version)
  unfolding read_both
  read_both-Always (some name) (some version) = search always_rules depth 12
  read_both-Always (some name) none = search always_rules
  read_both-Always none version = search always_rules

  read_model-Always : (model : Option (List ℕ)) → Always R (read_model env lib model)
  unfolding read_model
  read_model-Always none = search always_rules
  read_model-Always (some model) = search always_rules

  dmi_version-Always : Always R (dmi_version env lib)
  unfolding dmi_version
  dmi_version-Always = search (always_rules, reads, open_contents-Always, read_both-Always) depth 12

  model_version-Always : Always R (model_version env lib)
  unfolding model_version
  model_version-Always =
      search (always_rules, reads, open_contents-Always, read_model-Always) depth 12

  -- A relation that each of their calls keeps.
  pub steps-ReadsTexts : ReadsTexts env lib R
  steps-ReadsTexts = record {
    probes = λ path t. reads (access path) refl t;
    commands = command_output-Always;
    dmi = dmi_version-Always;
    model = model_version-Always;
  }

module _ (env : Env) (lib : Containers) {R : Trace → Trace → Type 0} (order : IsOrder R)
    (reads : ReadsTexts env lib R) where
  probe-Always : (path : CStr) → Always R (call env (access path))
  probe-Always path = record { at = reads.probes path }

  dmi-Always : Always R (dmi_version env lib)
  dmi-Always = reads.dmi

  model-Always : Always R (model_version env lib)
  model-Always = reads.model

  uname_version-Always : Always R (uname_version env lib)
  unfolding uname_version
  uname_version-Always = search (always_rules, reads.commands)

  or_else-Always :
      (hw_version : Option CStr) (next : M (Option CStr))
      → Always R next
      → Always R (or_else env lib hw_version next)
  unfolding or_else
  or_else-Always none next k = k
  or_else-Always (some hw_version) next k = search always_rules

  both_readable-Always : Always R (both_readable env lib)
  unfolding both_readable
  both_readable-Always = search (always_rules, reads.probes) depth 12

  pub get_hardware_version-Always : Always R (get_hardware_version env lib)
  unfolding get_hardware_version
  get_hardware_version-Always =
      search
        (
          always_rules, probe-Always, both_readable-Always, dmi-Always, model-Always,
          uname_version-Always, or_else-Always,
        )
        depth 16

  pub get_software_version-Always : Always R (get_software_version env lib)
  unfolding get_software_version
  get_software_version-Always = search (always_rules, reads.commands)

  pub get_chassis_id-Always : (xml : Xml) → Always R (get_chassis_id env lib xml)
  unfolding get_chassis_id
  get_chassis_id-Always xml = search (always_rules, reads.commands)

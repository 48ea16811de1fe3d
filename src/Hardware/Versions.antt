-- ===== src/Hardware/Versions.antt =====
-- hardware.c, getHardwareVersion, getSoftwareVersion and getChassisId: where the texts come from.
pub mod Laws
pub mod Leaks
pub mod Footprint
use tsn.Base.{ℕ, Bool, false, Option, none, some, List, [], CStr, text, if◌then◌else◌}
use tsn.Runtime.{
  M, Env, call, run, peek, pure, deref, ◌>>=◌, ◌>>◌, access, open_file, close_file, popen, pclose,
}
use tsn.Runtime.Containers.{Containers}
use tsn.Runtime.Streams.{read_all}
use tsn.Lldp.{Xml}
use tsn.Hardware.Texts.{trim_line_crlf, read_trimmed, description_of, find_chassis_id, buffer_len}

abbrev product_name_path : CStr
product_name_path = text "/sys/devices/virtual/dmi/id/product_name"

abbrev product_version_path : CStr
product_version_path = text "/sys/devices/virtual/dmi/id/product_version"

abbrev sys_model_path : CStr
sys_model_path = text "/sys/firmware/devicetree/base/model"

module _ (env : Env) (lib : Containers) where
  -- The output of a command; `none` if the command cannot be run. The loop that reads it always
  -- has fuel enough.
  pub command_output : CStr → M (Option CStr)
  command_output command = do
    opened ← call env (popen command)
    bytes ← peek env.contents
    if opened
        then (do res ← deref (read_all lib buffer_len bytes); run pclose; pure (some res))
        else pure none

  -- Opens a file: what it holds, if it can be opened.
  open_contents : CStr → M (Option (List ℕ))
  open_contents path = do
    opened ← call env (open_file path)
    bytes ← peek env.contents
    pure (if opened then some bytes else none)

  -- The two files of the DMI, one after the other with a space between.
  read_both : Option (List ℕ) → Option (List ℕ) → M (Option CStr)
  read_both (some name) (some version) = do
    res ← deref (read_trimmed lib [] name)
    res' ← deref (read_trimmed lib (lib.ds_put_char res 32) version)
    pure (some res')
  read_both _ _ = pure none

  pub dmi_version : M (Option CStr)
  dmi_version = do
    name ← open_contents product_name_path
    version ← open_contents product_version_path
    hw_version ← read_both name version
    run close_file
    run close_file
    pure hw_version

  read_model : Option (List ℕ) → M (Option CStr)
  read_model none = pure none
  read_model (some model) = do res ← deref (read_trimmed lib [] model); pure (some res)

  pub model_version : M (Option CStr)
  model_version = do
    model ← open_contents sys_model_path
    hw_version ← read_model model
    run close_file
    pure hw_version

  -- The machine's name from `uname -m`, the last resort.
  uname_version : M (Option CStr)
  uname_version = do
    res ← command_output (text "uname -m")
    pure (elim res [ none ↦ none | some output ↦ some (trim_line_crlf output) ])

  -- A source's version if it gives one, else the next source's.
  or_else : Option CStr → M (Option CStr) → M (Option CStr)
  or_else (some hw_version) next = pure (some hw_version)
  or_else none next = next

  -- The second `access` is made only if the first one succeeds.
  both_readable : M Bool
  both_readable = do
    first ← call env (access product_name_path)
    if first then call env (access product_version_path) else pure false

  unfoldable pub get_hardware_version : M (Option CStr)
  unfolding command_output open_contents read_both dmi_version read_model model_version
      uname_version or_else both_readable
  get_hardware_version = do
    dmi ← both_readable
    hw_version ← (if dmi then dmi_version else pure none)
    or_else hw_version (do
      has_model ← call env (access sys_model_path)
      hw_version' ← (if has_model then model_version else pure none)
      or_else hw_version' uname_version)

  unfoldable pub get_software_version : M (Option CStr)
  unfolding command_output
  get_software_version = do
    output ← command_output (text "lsb_release -d")
    pure (elim output [ none ↦ none | some res ↦ description_of res ])

  unfoldable pub get_chassis_id : Xml → M (Option CStr)
  unfolding command_output
  get_chassis_id xml = do
    output ← command_output (text "lldpcli -f xml show chassis summary")
    pure (elim output [ none ↦ none | some res ↦ find_chassis_id xml (xml.parse_doc res) ])

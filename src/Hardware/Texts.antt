-- ===== src/Hardware/Texts.antt =====
-- hardware.c, what it does with the texts that it reads: trimLineCRLF, the loop over `read`, the
-- text of `lsb_release -d`, and the search for the chassis's id.
pub mod Laws
use tsn.Base.{
  ℕ, zero, suc, ◌+◌, Bool, true, false, ◌&&◌, ◌||◌, ◌==◌, Option, none, some, List, [], ◌∷◌, ◌++◌,
  CStr, text, c_string, skip_spaces, strstr, str_eq, take, drop, length, if◌then◌else◌,
}
use tsn.Runtime.Containers.{Containers}
use tsn.Lldp.{Xml}
use tsn.Lldp.Props.{is_named}

abbrev pub is_crlf : ℕ → Bool
is_crlf c = c == 13 || c == 10

-- `trimLineCRLF`: the line up to the first CR or LF.
unfoldable pub trim_line_crlf : CStr → CStr
trim_line_crlf [] = []
trim_line_crlf (c ∷ line) = let rest = trim_line_crlf line in if is_crlf c then [] else c ∷ rest

-- `BUFFER_LEN`; `read` is asked for one byte less, into a buffer of zeros.
abbrev pub buffer_len : ℕ
buffer_len = 64

module _ (lib : Containers) where
  -- `while (read (fd, buffer, sizeof (buffer) - 1) > 0) { … }` on fuel, over what is left of the
  -- file; `none` means that the fuel ran out.
  trim_loop : ℕ → CStr → List ℕ → Option CStr
  trim_loop zero res file = none
  trim_loop (suc fuel) res [] = some res
  trim_loop (suc fuel) res (b ∷ file) =
      trim_loop fuel (lib.ds_put_cstr res (trim_line_crlf (c_string (take 63 (b ∷ file)))))
        (drop 63 (b ∷ file))

  -- One round more than there are bytes is enough.
  unfoldable pub read_trimmed : CStr → List ℕ → Option CStr
  unfolding trim_loop trim_line_crlf
  read_trimmed res file = trim_loop (suc (length file)) res file

-- The description, once the text before it is found or not.
unfoldable pub described : Option (CStr × CStr) → CStr → Option CStr
unfolding trim_line_crlf skip_spaces
described none output = none
described (some _) output = some (trim_line_crlf (skip_spaces (drop 12 output)))

-- What `getSoftwareVersion` makes of the command's output. It skips the first 12 bytes, wherever
-- the text `Description:` stands.
unfoldable pub description_of : CStr → Option CStr
unfolding described
description_of output = described (strstr output (text "Description:")) output

-- An id that was found, or what a later search finds.
unfoldable pub found_or : Option CStr → Option CStr → Option CStr
found_or none later = later
found_or (some id) later = some id

module _ (xml : Xml) where
  -- A child of the chassis that holds a MAC address.
  unfoldable pub is_mac_id : xml.Node → Bool
  is_mac_id child =
      is_named xml "id" child
      && (xml.has_prop child (text "type")
          && str_eq (xml.get_prop child (text "type")) (text "mac"))

  -- The inner loop, which leaves at the first such child.
  id_loop : List xml.Node → Option CStr
  unfolding is_mac_id
  id_loop [] = none
  id_loop (child ∷ rest) =
      let later = id_loop rest in if is_mac_id child then some (xml.content child) else later

  -- The loop over the children of the root.
  chassis_loop : List xml.Node → Option CStr
  unfolding id_loop found_or
  chassis_loop [] = none
  chassis_loop (current ∷ rest) =
      let later = chassis_loop rest in
      if is_named xml "chassis" current
      then found_or (id_loop (xml.children current)) later
      else later

  -- What `getChassisId` makes of the document.
  unfoldable pub find_chassis_id : Option (Option xml.Node) → Option CStr
  unfolding chassis_loop
  find_chassis_id none = none
  find_chassis_id (some none) = none
  find_chassis_id (some (some root)) =
      if is_named xml "local-chassis" root then chassis_loop (xml.children root) else none

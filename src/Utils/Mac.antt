-- ===== src/Utils/Mac.antt =====
-- utils.c, get_ieee_mac_addr and to_ieee_mac_addr: a MAC address with `-` for `:`.
pub mod Laws
use tsn.Base.{ℕ, CStr, List, [], ◌∷◌, ◌++◌, ◌==◌, if◌then◌else◌}

-- The loop that fills `buf`; `i` is the number of bytes written.
copy_loop : CStr → CStr → CStr
copy_loop buf [] = buf
copy_loop buf (c ∷ mac) = copy_loop (if c == b':' then buf ++ (b'-' ∷ []) else buf ++ (c ∷ [])) mac

-- A copy of `mac`, in fresh memory.
unfoldable pub get_ieee_mac_addr : CStr → CStr
unfolding copy_loop
get_ieee_mac_addr mac = copy_loop [] mac

-- The bytes of `mac` after the loop that writes over them in place.
unfoldable pub to_ieee_mac_addr : CStr → CStr
to_ieee_mac_addr [] = []
to_ieee_mac_addr (c ∷ mac) = (if c == b':' then b'-' else c) ∷ to_ieee_mac_addr mac

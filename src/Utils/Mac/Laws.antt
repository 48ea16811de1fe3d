-- ===== src/Utils/Mac/Laws.antt =====
-- utils.c: the two conversions of a MAC address agree, and change colons only.
use tsn.Base.{
  CStr, [], ◌∷◌, ◌++◌, ◌==◌, ◌≡◌, ◌≢◌, refl, sym, ◌∙◌, arith, length, All, append-nil, append_assoc,
  Bool-cases, inl, inr,
}
use tsn.Utils.Mac.{copy_loop, get_ieee_mac_addr, to_ieee_mac_addr}

copy_loop-to_ieee_mac_addr : (buf mac : CStr) → copy_loop buf mac ≡ buf ++ to_ieee_mac_addr mac
unfolding copy_loop to_ieee_mac_addr
copy_loop-to_ieee_mac_addr buf [] = sym (append-nil buf)
copy_loop-to_ieee_mac_addr buf (c ∷ mac) = elim (Bool-cases (c == b':')) [
  | inl colon ↦ rw colon (copy_loop-to_ieee_mac_addr _ mac ∙ append_assoc buf _ _)
  | inr other ↦ rw other (copy_loop-to_ieee_mac_addr _ mac ∙ append_assoc buf _ _)
]

-- The copying conversion, which fills a buffer byte by byte, returns what the conversion in place
-- leaves in memory.
get_ieee_mac_addr-to_ieee_mac_addr : (mac : CStr) → get_ieee_mac_addr mac ≡ to_ieee_mac_addr mac
unfolding get_ieee_mac_addr
get_ieee_mac_addr-to_ieee_mac_addr mac = copy_loop-to_ieee_mac_addr [] mac

-- No colon is left after the conversion in place, and a second one changes nothing.
to_ieee_mac_addr_idempotent :
    (mac : CStr)
    → All (λ c. c ≢ b':') (to_ieee_mac_addr mac)
      × (to_ieee_mac_addr (to_ieee_mac_addr mac) ≡ to_ieee_mac_addr mac)
unfolding to_ieee_mac_addr
to_ieee_mac_addr_idempotent [] = (tt, refl)
to_ieee_mac_addr_idempotent (c ∷ mac) =
    let (none_left, same) = to_ieee_mac_addr_idempotent mac in
    ((ground arith, none_left), ground (arith, same))

pub length-to_ieee_mac_addr : (mac : CStr) → length (to_ieee_mac_addr mac) ≡ length mac
unfolding to_ieee_mac_addr
length-to_ieee_mac_addr [] = refl
length-to_ieee_mac_addr (c ∷ mac) = omega (arith, length-to_ieee_mac_addr mac)

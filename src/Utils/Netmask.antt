-- ===== src/Utils/Netmask.antt =====
-- utils.c, netmask_prefix: the prefix length of a netmask, an 8-bit count of the one bits.
pub mod Laws
use tsn.Base.{
  ℕ, zero, suc, ◌+◌, ◌*◌, ◌/◌, ◌%◌, ◌≤◌, ◌<◌, Option, none, some, Bool, ◌==◌, if◌then◌else◌, u8_mod,
}

-- A `struct sockaddr` as the function reads it: the address of AF_INET, or else the four words of
-- an IPv6 address.
pub data SockAddr : Type 0 where
  inet : ℕ → SockAddr
  inet6 : ℕ → ℕ → ℕ → ℕ → SockAddr

-- `while (in_addr != 0)`, with fuel; `none` means that the fuel ran out.
unfoldable pub ones_loop : ℕ → ℕ → ℕ → Option ℕ
ones_loop zero in_addr prefix = none
ones_loop (suc fuel) in_addr prefix =
    let rest =
      ones_loop fuel (in_addr / 2) (if in_addr % 2 == 1 then (prefix + 1) % u8_mod else prefix) in
    if in_addr == 0 then some prefix else rest

-- A word has 32 bits, and the loop ends in the round after the last.
abbrev pub word_fuel : ℕ
word_fuel = 33

infixl 5 ◌>>=◌
abbrev ◌>>=◌ : Option ℕ → (ℕ → Option ℕ) → Option ℕ
none >>= f = none
some n >>= f = f n

unfoldable pub netmask_prefix : SockAddr → Option ℕ
netmask_prefix (inet s_addr) = ones_loop word_fuel s_addr 0
netmask_prefix (inet6 w0 w1 w2 w3) = do
  a ← ones_loop word_fuel w0 0
  b ← ones_loop word_fuel w1 a
  c ← ones_loop word_fuel w2 b
  ones_loop word_fuel w3 c

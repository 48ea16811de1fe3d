-- ===== src/Interface/Ips.antt =====
-- interface.c, collect_ips and what it calls: the addresses of the machine, by interface.
pub mod Store
pub mod Mtus
pub mod Nodes
pub mod Rounds
pub mod Laws
pub mod Footprint
use tsn.Base.{
  ℕ, zero, suc, ◌+◌, ◌%◌, ◌/◌, ◌==◌, Bool, true, false, not, Option, none, some, List, [], ◌∷◌,
  ◌++◌, CStr, ℤ, pos, negsuc, length, if◌then◌else◌,
}
use tsn.Runtime.{
  M, Env, Trace, call, run, peek, pure, deref, ◌>>=◌, ◌>>◌, fold_each, IfAddr, Family, af_inet,
  af_inet6, af_other, getifaddrs, freeifaddrs, socket, close, siocgifmtu, siocgifflags,
}
use tsn.Runtime.Containers.{Containers}
use tsn.Utils.Netmask.{SockAddr, netmask_prefix}
use tsn.Interface.{Address, Ip}
use tsn.Interface.Collect.{Interfaces}

-- `*mtu` and `*flags` after get_interface_mtu_and_flags, from their values before.
unfoldable pub get_interface_mtu_and_flags : Env → CStr → ℤ → ℕ → M (ℤ × ℕ)
get_interface_mtu_and_flags env name mtu flags = do
  opened ← call env socket
  if opened
      then (do
        got_mtu ← call env (siocgifmtu name)
        new_mtu ← peek env.ioctl_value
        got_flags ← call env (siocgifflags name)
        new_flags ← peek env.ioctl_value
        run close
        pure (if got_mtu then pos new_mtu else mtu, if got_flags then new_flags else flags))
      else pure (mtu, flags)

-- The structures that `ip_create` allocates, by number, and the map from names to them: what is
-- added to a structure is seen through the map.
pub record Ips : Type 0 where
  pub store : List Ip
  pub names : List (CStr × ℕ)

-- `list_push_back (&ip->addresses, &address->node)`, on the structure of number `p`.
unfoldable pub add_address : Containers → List Ip → ℕ → Address → List Ip
add_address lib [] p a = []
add_address lib (ip ∷ store) zero a =
    record ip { addresses = lib.list_push_back Address ip.addresses a } ∷ store
add_address lib (ip ∷ store) (suc p) a = ip ∷ add_address lib store p a

-- The structure that a node of the map points to.
unfoldable pub fetch : List Ip → ℕ → Option Ip
fetch [] p = none
fetch (ip ∷ store) zero = some ip
fetch (ip ∷ store) (suc p) = fetch store p

-- IFF_UP is the last bit of the flags.
abbrev is_up : ℕ → Bool
is_up flags = flags % 2 == 1

-- `netmask_prefix` of a pointer, which the code follows with no test.
abbrev pub prefix_at : Option SockAddr → Option ℕ
prefix_at none = none
prefix_at (some mask) = netmask_prefix mask

module _ (env : Env) (lib : Containers) where
  -- `ip_create`, its fields and `shash_add`; the number of the structure comes with the state.
  new_ip : Ips → CStr → M (Ips × ℕ)
  new_ip ips name = do
    (mtu, flags) ← get_interface_mtu_and_flags env name (negsuc 0) 0
    pure (
      record {
        store =
            ips.store
            ++ (record { name = name; is_up = is_up flags; mtu = mtu; addresses = [] } ∷ []);
        names = lib.shash_add ℕ ips.names name (length ips.store);
      },
      length ips.store,
    )

  find_ip : Ips → CStr → M (Ips × ℕ)
  find_ip ips name = elim (lib.shash_find_data ℕ ips.names name) [
    | some p ↦ pure (ips, p)
    | none ↦ new_ip ips name
  ]

  -- An address of either family; `inet_ntop` and `netmask_prefix` fill the structure. The loop of
  -- `netmask_prefix` has fuel enough for its words.
  add_entry : Ips → IfAddr → Bool → CStr → M Ips
  add_entry ips addr is_ipv4 printed = do
    (found, p) ← find_ip ips addr.ifa_name
    prefix ← deref (prefix_at addr.ifa_netmask)
    pure (record found {
      store = add_address lib found.store p (record {
        is_ipv4 = is_ipv4;
        addr = printed;
        netmask = addr.netmask_text;
        prefix = prefix;
      });
    })

  -- The body of the loop over the entries of `getifaddrs`.
  pub ip_round : Interfaces → Ips → IfAddr → M Ips
  ip_round interfaces ips addr = elim (lib.shash_find_data _ interfaces addr.ifa_name) [
    | none ↦ pure ips
    | some _ ↦ elim addr.ifa_addr [
      | none ↦ pure ips
      | some (af_inet, printed) ↦ add_entry ips addr true printed
      | some (af_inet6, printed) ↦ add_entry ips addr false printed
      | some (af_other, printed) ↦ pure ips
    ]
  ]

  -- The result tells whether `getifaddrs` succeeded.
  unfoldable pub collect_ips : Interfaces → Ips → M (Ips × Bool)
  unfolding ip_round add_entry find_ip new_ip
  collect_ips interfaces ips = do
    got ← call env getifaddrs
    addrs ← peek env.ifaddrs
    if got
        then (do all ← fold_each addrs ips (ip_round interfaces); run freeifaddrs; pure (all, true))
        else pure (ips, false)

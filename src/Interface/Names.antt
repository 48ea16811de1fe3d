-- ===== src/Interface/Names.antt =====
-- interface.c, get_interface_names and destroy_interface_names, with the static variable that
-- keeps the set of names.
pub mod Threads
pub mod Laws
pub mod Footprint
pub mod Known
use tsn.Base.{ℕ, Bool, ◌||◌, ◌==◌, Option, none, some, List, [], CStr, if◌then◌else◌}
use tsn.Runtime.{
  M, Env, run, peek, pure, exit, deref, ◌>>=◌, ◌>>◌, fold_each, if_nameindex, rtnl_link_get_by_name,
  rtnl_link_put,
}
use tsn.Runtime.Containers.{Containers}
use tsn.Runtime.Netlink.{with_link_cache, named, is_switch_port}

-- The static `interface_names`: NULL, or a set.
abbrev pub Names : Type 0
Names = Option (List CStr)

-- 772 loopback, 280 CAN, 776 SIT.
abbrev pub is_skipped : ℕ → Bool
is_skipped arptype = arptype == 772 || (arptype == 280 || arptype == 776)

module _ (env : Env) (lib : Containers) where
  -- The body of the loop. The link's type is read with no test of the link.
  name_round : List CStr → ℕ × CStr → M (List CStr)
  name_round names (index, name) =
      if is_switch_port name
      then (do
        run (rtnl_link_get_by_name name)
        found ← peek (λ t. env.link_get_by_name t name)
        link ← deref found
        run rtnl_link_put
        pure (if is_skipped link.arptype then names else lib.sset_add names name))
      else pure names

  list_names : M (List CStr)
  list_names = do
    run if_nameindex
    if_ni ← peek env.if_nameindex
    fold_each (named if_ni) [] name_round

  -- The result, and the static variable afterwards. Without a socket the program exits; without a
  -- cache of links the set stays empty, and is kept all the same.
  unfoldable pub get_interface_names : Names → M (List CStr × Names)
  unfolding list_names name_round
  get_interface_names (some names) = pure (names, some names)
  get_interface_names none = do
    names ← with_link_cache env exit (pure []) list_names (pure tt)
    pure (names, some names)

-- The set is destroyed, and the variable keeps its pointer.
unfoldable pub destroy_interface_names : Names → Names
destroy_interface_names none = none
destroy_interface_names (some names) = some []

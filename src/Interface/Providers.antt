-- ===== src/Interface/Providers.antt =====
-- interface.c, interface_statistics_provider and interface_oper_status_provider: the operational
-- data that sysrepo asks for.
pub mod Nodes
pub mod Laws
pub mod Footprint
use tsn.Base.{
  ℕ, Bool, true, false, ◌==◌, Option, none, some, [], ◌++◌, CStr, String, text, decimal,
  if◌then◌else◌,
}
use tsn.Runtime.{
  M, Env, run, peek, pure, deref, ◌>>=◌, ◌>>◌, fold_each, Link, Stat, rx_bytes, rx_packets,
  rx_errors, rx_dropped, tx_bytes, tx_packets, tx_errors, tx_dropped, rtnl_link_get_by_name,
  rtnl_link_put, time, lyd_new_tree, lyd_new_path, sr_acquire_context, sr_release_context,
}
use tsn.Runtime.Containers.{Containers}
use tsn.Runtime.Netlink.{with_link_cache}
use tsn.Utils.Clock.{CTime, get_iso8601_time}
use tsn.Interface.Names.{Names, get_interface_names}
use tsn.Interface.Save.{interface_path}

-- A node of the tree: the first begins it.
unfoldable pub new_node : Bool → CStr → Option CStr → M (Unit {0})
new_node start path value =
    if start then run (lyd_new_tree path value) else run (lyd_new_path path value)

unfoldable pub statistics_path : CStr → String → CStr
statistics_path name node_name =
    text "/ietf-interfaces:interfaces/interface[name='"
    ++ (name ++ (text "']/statistics/" ++ text node_name))

-- `add_new_path`.
unfoldable pub add_new_path : CStr → String → Link → Stat → M (Unit {0})
add_new_path name node_name link id =
    run (lyd_new_path (statistics_path name node_name) (some (decimal (link.stat id))))

-- The nodes of a link's counters.
unfoldable pub add_statistics : CStr → Link → M (Unit {0})
unfolding add_new_path
add_statistics name link = do
  add_new_path name "in-octets" link rx_bytes
  add_new_path name "in-unicast-pkts" link rx_packets
  add_new_path name "in-errors" link rx_errors
  add_new_path name "in-discards" link rx_dropped
  add_new_path name "out-octets" link tx_bytes
  add_new_path name "out-unicast-pkts" link tx_packets
  add_new_path name "out-errors" link tx_errors
  add_new_path name "out-discards" link tx_dropped

-- `IF_OPER_*`, in the kernel's numbers; `none` is the default of the switch.
unfoldable pub oper_state_text : ℕ → Option CStr
oper_state_text s =
    if s == 6
    then some (text "up")
    else if s == 2
    then some (text "down")
    else if s == 4
    then some (text "testing")
    else if s == 0
    then some (text "unknown")
    else if s == 5
    then some (text "dormant")
    else if s == 1
    then some (text "not-present")
    else if s == 3
    then some (text "lower-layer-down")
    else none

-- `oper_state` after the switch, which leaves it as it is for a state that is not known.
unfoldable pub next_state : CStr → ℕ → CStr
unfolding oper_state_text
next_state oper_state s = elim (oper_state_text s) [ none ↦ oper_state | some found ↦ found ]

-- What the loop of the statistics does with the link of a name, and the text of the time.
pub add_link_statistics : Bool → CStr → Option CStr → Option Link → M Bool
add_link_statistics start name current none = run rtnl_link_put >> pure start
add_link_statistics start name current (some link) =
    new_node start (statistics_path name "discontinuity-time") current
    >> (add_statistics name link >> (run rtnl_link_put >> pure false))

module _ (env : Env) (clock : CTime) (lib : Containers) where
  -- The loop body of the statistics: `start` after it.
  pub statistics_round : Bool → CStr → M Bool
  statistics_round start name = do
    run (rtnl_link_get_by_name name)
    found ← peek (λ t. env.link_get_by_name t name)
    run time
    rawtime ← peek env.time
    add_link_statistics start name (get_iso8601_time clock rawtime) found

  -- The loop body of the states: `start` and `oper_state` after it.
  pub oper_status_round : Bool × CStr → CStr → M (Bool × CStr)
  oper_status_round (start, oper_state) name = do
    run (rtnl_link_get_by_name name)
    found ← peek (λ t. env.link_get_by_name t name)
    link ← deref found
    let state = next_state oper_state link.operstate
    new_node start (interface_path name "oper-status") (some state)
    run rtnl_link_put
    pure (false, state)

  statistics_body : Names → M Names
  statistics_body static = do
    (names, static') ← get_interface_names env lib static
    fold_each names true statistics_round
    pure static'

  oper_status_body : Names → M Names
  oper_status_body static = do
    (names, static') ← get_interface_names env lib static
    fold_each names (true, []) oper_status_round
    pure static'

  -- The static variable is carried through. The early returns do not release the context.
  unfoldable pub interface_statistics_provider : Names → M Names
  unfolding statistics_body statistics_round add_link_statistics
  interface_statistics_provider static = do
    run sr_acquire_context
    with_link_cache env (pure static) (pure static) (statistics_body static)
        (run sr_release_context)

  unfoldable pub interface_oper_status_provider : Names → M Names
  unfolding oper_status_body oper_status_round
  interface_oper_status_provider static = do
    run sr_acquire_context
    with_link_cache env (pure static) (pure static) (oper_status_body static)
        (run sr_release_context)

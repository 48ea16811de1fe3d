-- ===== src/Runtime/Calls.antt =====
-- The calls into sysrepo, libyang, libnl, the kernel and the shell, and the data that they return.
use tsn.Base.{ℕ, CStr, Option, Bool, List}
use tsn.Utils.Netmask.{SockAddr}

-- The members of `sr_val_t` that the program sets.
pub data Val : Type 0 where
  u8 : ℕ → Val
  u16 : ℕ → Val
  u64 : ℕ → Val
  i32 : ℕ → Val
  str : Option CStr → Val
  identityref : CStr → Val
  enumeration : CStr → Val

pub data Datastore : Type 0 where
  running operational : Datastore

-- A link of the netlink cache, by what its accessors return. `stat` goes by RTNL_LINK_*.
pub data Stat : Type 0 where
  rx_bytes rx_packets rx_errors rx_dropped : Stat
  tx_bytes tx_packets tx_errors tx_dropped : Stat

pub record Link : Type 0 where
  pub name : CStr
  pub arptype : ℕ
  pub kind : Option CStr
  pub flags : ℕ
  pub ifindex : ℕ
  pub addr : CStr
  pub master : ℕ
  pub is_vlan : Bool
  pub vlan_id : ℕ
  pub is_bridge : Bool
  pub bridge_pvid : ℕ
  pub operstate : ℕ
  pub stat : Stat → ℕ

-- An entry of `if_nameindex`; index 0 and no name mark the end.
pub record IfName : Type 0 where
  pub if_index : ℕ
  pub if_name : Option CStr

-- `sin_addr` or `sin6_addr` as `inet_ntop` prints it, by family.
pub data Family : Type 0 where
  af_inet af_inet6 af_other : Family

pub record IfAddr : Type 0 where
  pub ifa_name : CStr
  -- `none` is a null `ifa_addr`.
  pub ifa_addr : Option (Family × CStr)
  -- `none` is a null `ifa_netmask`, as entries of other families have it.
  pub ifa_netmask : Option SockAddr
  pub netmask_text : CStr

-- A basic value in a message of D-Bus: a string, or of another type.
pub data DbusEntry : Type 0 where
  dbus_string : CStr → DbusEntry
  dbus_other : DbusEntry

-- The first argument of a message; `no_arguments` where `dbus_message_iter_init` says so.
pub data DbusArgs : Type 0 where
  no_arguments : DbusArgs
  dbus_array : List DbusEntry → DbusArgs
  not_array : DbusArgs

pub data Call : Type 0 where
  sr_connect sr_session_start sr_disconnect : Call
  sr_delete_item : CStr → Call
  sr_set_item : CStr → Val → Call
  sr_apply_changes sr_discard_changes : Call
  sr_session_switch_ds : Datastore → Call
  sr_acquire_context sr_release_context : Call
  sr_oper_get_subscribe : CStr → CStr → Call
  sr_unsubscribe : Call
  -- `lyd_new_path` with no parent, which makes a new tree, and under the tree.
  lyd_new_tree : CStr → Option CStr → Call
  lyd_new_path : CStr → Option CStr → Call
  if_nameindex getifaddrs freeifaddrs : Call
  nl_socket_alloc nl_connect nl_socket_free nl_close : Call
  rtnl_link_alloc_cache nl_cache_free : Call
  rtnl_link_get_by_name : CStr → Call
  rtnl_link_get : ℕ → Call
  rtnl_link_put : Call
  socket close : Call
  siocgifmtu siocgifflags siocethtool : CStr → Call
  popen : CStr → Call
  pclose : Call
  access : CStr → Call
  open_file : CStr → Call
  close_file : Call
  time : Call
  sleep : Call
  -- libdbus: connecting to the bus, making the message and its argument, and sending it.
  dbus_bus_get : Call
  dbus_bus_request_name : CStr → Call
  dbus_message_new_method_call : CStr → CStr → CStr → CStr → Call
  dbus_append_string : CStr → Call
  dbus_connection_send_with_reply : Call
  dbus_pending_call_get : Call
  dbus_connection_flush : Call
  dbus_pending_call_block dbus_pending_call_steal_reply : Call
  dbus_message_unref dbus_connection_unref : Call
  -- `fprintf (stderr, "ret_str - %s\n", key)`, and a line of any other text on either stream.
  print_entry : CStr → Call
  print_out print_error : CStr → Call

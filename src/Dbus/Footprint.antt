-- ===== src/Dbus/Footprint.antt =====
-- dbus_util.c, dbus_query: the calls that it makes.
use tsn.Base.{◌++◌, text, refl, String, CStr, Bool, true, false, ◌≡◌}
use tsn.Runtime.{
  peek, pure, Trace, Env, Call, DbusEntry, dbus_string, dbus_other, DbusArgs, no_arguments,
  dbus_array, not_array, dbus_bus_get, dbus_bus_request_name, dbus_message_new_method_call,
  dbus_append_string, dbus_connection_send_with_reply, dbus_pending_call_get, dbus_connection_flush,
  dbus_message_unref, dbus_pending_call_block, dbus_pending_call_steal_reply, dbus_connection_unref,
  print_entry, print_out, print_error,
}
use tsn.Runtime.Always.{
  IsOrder, Always, Steps, always_rules, Always-option, Always-bind, Always-peek, Always-pure,
  Always-run,
}
use tsn.Dbus.{print_dbus_entry, print_reply, need, report, connect, dbus_query}

-- The calls of libdbus, and the printing of a string.
abbrev pub uses_dbus : Call → Bool
uses_dbus dbus_bus_get = true
uses_dbus (dbus_bus_request_name name) = true
uses_dbus (dbus_message_new_method_call destination path iface method) = true
uses_dbus (dbus_append_string param) = true
uses_dbus dbus_connection_send_with_reply = true
uses_dbus dbus_pending_call_get = true
uses_dbus dbus_connection_flush = true
uses_dbus dbus_message_unref = true
uses_dbus dbus_pending_call_block = true
uses_dbus dbus_pending_call_steal_reply = true
uses_dbus dbus_connection_unref = true
uses_dbus (print_entry key) = true
uses_dbus (print_out line) = true
uses_dbus (print_error line) = true
uses_dbus _ = false

module _ (env : Env) {R : Trace → Trace → Type 0} (order : IsOrder R)
    (uses : Steps R uses_dbus) where
  print_dbus_entry-Always : (entry : DbusEntry) → Always R (print_dbus_entry entry)
  unfolding print_dbus_entry
  print_dbus_entry-Always (dbus_string key) = search (always_rules, uses)
  print_dbus_entry-Always dbus_other = search always_rules

  print_reply-Always : (args : DbusArgs) → Always R (print_reply args)
  unfolding print_reply
  print_reply-Always no_arguments = search (always_rules, uses)
  print_reply-Always (dbus_array entries) = search (always_rules, print_dbus_entry-Always)
  print_reply-Always not_array = search always_rules

  need-Always : (c : Call) (message : String) → uses_dbus c ≡ true → Always R (need env c message)
  unfolding need
  need-Always c message h = search (always_rules, uses)

  report-Always : (message : String) → Always R (report env message)
  unfolding report
  report-Always message =
      Always-bind order (peek env.dbus_error) _ (Always-peek order env.dbus_error) λ err.
        Always-option err (pure tt) _ (Always-pure order tt) (λ cause.
          Always-run (print_error (text message ++ (text " (" ++ (cause ++ text ")"))))
            (uses _ refl))

  connect-Always : Always R (connect env)
  unfolding connect
  connect-Always = search (always_rules, uses, report-Always)

  pub dbus_query-Always : (param : CStr) → Always R (dbus_query env param)
  unfolding dbus_query
  dbus_query-Always param =
      search (always_rules, uses, need-Always, report-Always, connect-Always, print_reply-Always)
        depth 28

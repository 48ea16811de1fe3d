-- ===== src/Dbus.antt =====
-- dbus_util.c, dbus_query: one call of a method of another program, and the strings of its reply.
pub mod Laws
pub mod Footprint
use tsn.Base.{
  String, Option, none, some, ◌++◌, Bool, true, false, List, [], ◌∷◌, CStr, text, if◌then◌else◌,
}
use tsn.Runtime.{
  M, Env, Call, call, run, peek, pure, exit, ◌>>=◌, ◌>>◌, for_each, DbusEntry, dbus_string,
  dbus_other, DbusArgs, no_arguments, dbus_array, not_array, dbus_bus_get, dbus_bus_request_name,
  dbus_message_new_method_call, dbus_append_string, dbus_connection_send_with_reply,
  dbus_pending_call_get, dbus_connection_flush, dbus_message_unref, dbus_pending_call_block,
  dbus_pending_call_steal_reply, dbus_connection_unref, print_entry, print_out, print_error,
}

-- The loop body over an array: only strings are printed.
print_dbus_entry : DbusEntry → M (Unit {0})
print_dbus_entry (dbus_string key) = run (print_entry key)
print_dbus_entry dbus_other = pure tt

unfoldable pub print_reply : DbusArgs → M (Unit {0})
unfolding print_dbus_entry
print_reply no_arguments = run (print_error (text "Message has no arguments!"))
print_reply (dbus_array entries) = for_each entries print_dbus_entry
print_reply not_array = pure tt

module _ (env : Env) where
  -- A call whose failure ends the program, with this message.
  need : Call → String → M (Unit {0})
  need c message = do
    ok ← call env c
    if ok then pure tt else run (print_error (text message)) >> exit

  -- The error that the last call has set, if any, is printed and cleared.
  report : String → M (Unit {0})
  report message = do
    err ← peek env.dbus_error
    elim err [
      | none ↦ pure tt
      | some cause ↦ run (print_error (text message ++ (text " (" ++ (cause ++ text ")"))))
    ]

  -- The connection to the bus; without it the program ends.
  connect : M (Unit {0})
  connect = do
    connected ← call env dbus_bus_get
    report "Connection Error"
    if connected then pure tt else exit

  -- Whether the name on the bus is given makes no difference. `send_with_reply` may succeed and
  -- still leave `pending` NULL.
  unfoldable pub dbus_query : CStr → M (Unit {0})
  unfolding need report connect print_reply print_dbus_entry
  dbus_query param = do
    run (print_out (text "Calling remote method with " ++ param))
    connect
    run (dbus_bus_request_name (text "com.example.SampleService"))
    report "Name Error"
    need
        (dbus_message_new_method_call (text "com.example.SampleService") (text "/SomeObject")
          (text "com.example.SampleInterface") (text "HelloWorld"))
        "Message Null"
    need (dbus_append_string param) "Out Of Memory!"
    need dbus_connection_send_with_reply "Out Of Memory!"
    need dbus_pending_call_get "Pending Call Null"
    run dbus_connection_flush
    run (print_out (text "Request Sent"))
    run dbus_message_unref
    run dbus_pending_call_block
    need dbus_pending_call_steal_reply "Reply Null"
    args ← peek env.dbus_args
    print_reply args
    run dbus_message_unref
    run dbus_connection_unref

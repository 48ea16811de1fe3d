-- ===== src/Dbus/Laws.antt =====
-- dbus_util.c: what is printed of a reply.
use tsn.Base.{
  String, text, Option, none, some, if◌then◌else◌, List, [], ◌∷◌, ◌++◌, append-nil, Bool-cases, inl,
  inr, ◌≡◌, ◌∙◌, ap, refl, sym, CStr, concat_map,
}
use tsn.Runtime.{
  Call, Env, M, run, ◌>>◌, dbus_bus_get, dbus_append_string, dbus_connection_send_with_reply,
  dbus_pending_call_get, dbus_connection_flush, dbus_message_unref, dbus_pending_call_block,
  dbus_pending_call_steal_reply, dbus_connection_unref, dbus_bus_request_name, print_out, pure,
  exit, Trace, DbusEntry, dbus_string, dbus_other, DbusArgs, no_arguments, dbus_array, not_array,
  print_entry,
}
use tsn.Runtime.Laws.{Returns, for_each_adds}
use tsn.Runtime.Ends.{Ends, Ends-bind, Returns-Ends}
use tsn.Dbus.{print_dbus_entry, print_reply, need, report, connect, dbus_query}

-- The strings of replies printed so far, the first first; the other lines do not count.
abbrev pub printed : Trace → List CStr
printed [] = []
printed (print_entry key ∷ t) = printed t ++ (key ∷ [])
printed (_ ∷ t) = printed t

abbrev pub string_of : DbusEntry → List CStr
string_of (dbus_string key) = key ∷ []
string_of dbus_other = []

abbrev pub strings_of : DbusArgs → List CStr
strings_of no_arguments = []
strings_of (dbus_array entries) = concat_map string_of entries
strings_of not_array = []

print_dbus_entry-printed :
    (e : DbusEntry) (t : Trace)
    → Returns (λ _ u. printed u ≡ printed t ++ string_of e) (print_dbus_entry e t)
unfolding print_dbus_entry
print_dbus_entry-printed (dbus_string key) t = refl
print_dbus_entry-printed dbus_other t = sym (append-nil (printed t))

-- Of a reply the strings of the array are printed, in order, and nothing else.
print_reply-printed :
    (args : DbusArgs) (t : Trace)
    → Returns (λ _ u. printed u ≡ printed t ++ strings_of args) (print_reply args t)
unfolding print_reply
print_reply-printed no_arguments t = sym (append-nil (printed t))
print_reply-printed not_array t = sym (append-nil (printed t))
print_reply-printed (dbus_array entries) t =
    for_each_adds printed string_of print_dbus_entry print_dbus_entry-printed entries t

module _ (env : Env) (before : List CStr) where
  -- Nothing has been printed since.
  abbrev Silent : Trace → Type 0
  Silent u = printed u ≡ before

  -- The strings of a reply have been printed.
  abbrev pub Replied : Trace → Type 0
  Replied u =
      (v : Trace) × (printed u
        ≡ before ++ strings_of (env.dbus_args (dbus_pending_call_steal_reply ∷ v)))

  -- A needed call that prints nothing: the program goes on, or ends.
  need-Ends :
      (c : Call) (message : String) (t : Trace)
      → Silent (c ∷ t)
      → Ends (λ _ u. Silent u × (u ≡ c ∷ t)) Silent (need env c message t)
  unfolding need
  need-Ends c message t h = elim (Bool-cases (env.succeeds (c ∷ t))) [
    | inl e ↦ rw e (h, refl)
    | inr e ↦ rw e h
  ]

  -- A run after a needed call.
  after_need :
      (c : Call) (message : String) (k : M (Unit {0})) (t : Trace)
      → Silent (c ∷ t)
      → ((u : Trace) → Silent u → Ends (λ _ v. Replied v) Silent (k u))
      → Ends (λ _ v. Replied v) Silent ((need env c message >> k) t)
  after_need c message k t h next =
      Ends-bind (λ _ u. Silent u × (u ≡ c ∷ t)) (λ _ v. Replied v) Silent (need env c message)
        (λ _. k) t (need-Ends c message t h) (λ _ u (s, _). next u s)

  report-Ends :
      (message : String) (t : Trace)
      → Silent t
      → Ends (λ _ u. Silent u) Silent (report env message t)
  unfolding report
  report-Ends message t h = go (env.dbus_error t) refl
    where
      go :
          (err : Option CStr)
          → env.dbus_error t ≡ err
          → Ends (λ _ u. Silent u) Silent (report env message t)
      go none e = rw (e, report) h
      go (some cause) e = rw (e, report) h

  connect-Ends : (t : Trace) → Silent t → Ends (λ _ u. Silent u) Silent (connect env t)
  unfolding connect
  connect-Ends t h =
      Ends-bind (λ _ u. Silent u) (λ _ u. Silent u) Silent (report env "Connection Error")
        (λ _. if env.succeeds (dbus_bus_get ∷ t) then pure tt else exit) (dbus_bus_get ∷ t)
        (report-Ends "Connection Error" (dbus_bus_get ∷ t) h)
        (λ _ u k. elim (Bool-cases (env.succeeds (dbus_bus_get ∷ t))) [
          | inl e ↦ rw e k
          | inr e ↦ rw e k
        ])

  -- Once the reply is there, its strings are printed.
  reply-Ends :
      (t u : Trace)
      → u ≡ dbus_pending_call_steal_reply ∷ t
      → Silent u
      → Ends
          (λ _ v. Replied v)
          Silent
          ((print_reply (env.dbus_args u) >> (run dbus_message_unref >> run dbus_connection_unref))
            u)
  reply-Ends t u i h =
      Ends-bind (λ _ v. printed v ≡ printed u ++ strings_of (env.dbus_args u)) (λ _ v. Replied v)
        Silent (print_reply (env.dbus_args u))
        (λ _. run dbus_message_unref >> run dbus_connection_unref) u
        (Returns-Ends _ _ (print_reply (env.dbus_args u) u)
          (print_reply-printed (env.dbus_args u) u))
        (λ _ v e. (
          t,
          e
              ∙ ap (λ l. l ++ strings_of (env.dbus_args u)) h
              ∙ ap (λ w. before ++ strings_of (env.dbus_args w)) i,
        ))

-- On every path `dbus_query` returns, having printed of the reply's array exactly the strings, each
-- on a line of its own, in order, whatever lines of its own it prints besides; or it ends the
-- program before any string of a reply is printed. It never follows a null pointer.
pub dbus_query-Ends :
    (env : Env) (param : CStr) (t : Trace)
    → Ends (λ _ u. Replied env (printed t) u) (λ u. printed u ≡ printed t) (dbus_query env param t)
unfolding dbus_query
dbus_query-Ends env param t =
    let next = after_need env (printed t) in
    let end : Trace → Type 0 = λ u. printed u ≡ printed t in
    let called = print_out (text "Calling remote method with " ++ param) ∷ t in
    Ends-bind (λ _ u. printed u ≡ printed t) (λ _ v. Replied env (printed t) v) end (connect env) _
      called (connect-Ends env (printed t) called refl)
      λ _ u h.
        let named = dbus_bus_request_name (text "com.example.SampleService") ∷ u in
        Ends-bind (λ _ u. printed u ≡ printed t) (λ _ v. Replied env (printed t) v) end
          (report env "Name Error") _ named (report-Ends env (printed t) "Name Error" named h)
          λ _ u h. next _ _ _ u h λ u h. next (dbus_append_string param) _ _ u h λ u h.
            next dbus_connection_send_with_reply _ _ u h λ u h.
              next dbus_pending_call_get _ _ u h λ u h.
                let sent =
                  dbus_pending_call_block
                  ∷ dbus_message_unref
                  ∷ print_out (text "Request Sent")
                  ∷ dbus_connection_flush
                  ∷ u in
                Ends-bind
                  (λ _ v. (printed v ≡ printed t) × (v ≡ dbus_pending_call_steal_reply ∷ sent))
                  (λ _ v. Replied env (printed t) v) end
                  (need env dbus_pending_call_steal_reply "Reply Null") _ sent
                  (need-Ends env (printed t) dbus_pending_call_steal_reply "Reply Null" sent h)
                  (λ _ v (s, e). reply-Ends env (printed t) _ v e s)

-- ===== src/Main/Startup.antt =====
-- main.c: the whole run, from the connection to the end.
use tsn.Base.{Bool, true, false, ◌≡◌, refl, ◌∷◌, text, All}
use tsn.Runtime.{Env, Trace, Result, done, fault, exited, sr_apply_changes, sr_delete_item, ◌>>◌}
use tsn.Runtime.Containers.{Containers, IsLawful}
use tsn.Runtime.Laws.{Returns, Returns-bind}
use tsn.Runtime.Ends.{Ends}
use tsn.Runtime.Records.{session_ds}
use tsn.Interface.Collect.Laws.{HasMasters}
use tsn.Interface.Ips.Rounds.{IsMasked}
use tsn.Interface.Names.{Names}
use tsn.Dbus.{dbus_query}
use tsn.Dbus.Laws.{Replied, printed, dbus_query-Ends}
use tsn.Main.{unsubscribe}

-- A run that returns.
abbrev Total : {A : Type 0} → Result A → Type 0
Total r = Returns (λ _ _. Unit {0}) r

-- What the program asks of the answers of the kernel and of sysrepo: the master of a link of a
-- cache is in that cache, each address of IPv4 or IPv6 has a netmask of 32-bit words, and the
-- session's datastore is told truly.
pub record IsSane (env : Env) : Type 0 where
  pub masters : HasMasters env
  pub masks : (u : Trace) → All IsMasked (env.ifaddrs u)
  pub honest : (u : Trace) → env.get_ds u ≡ session_ds u

-- The end of the program in `dbus_query`, after a call that it needs.
abbrev pub InDbus : Env → Trace → Type 0
InDbus env u = (t : Trace) × (dbus_query env (text "test") t ≡ exited u)

-- The trace after `delete_old`.
abbrev pub deleted : Trace → Trace
deleted t =
    sr_apply_changes
    ∷ sr_delete_item (text "/ietf-interfaces:interfaces")
    ∷ sr_apply_changes
    ∷ sr_delete_item (text "/ieee802-dot1ab-lldp:lldp")
    ∷ t

pub dbus_query-InDbus :
    (env : Env) (t : Trace)
    → Ends (λ _ u. Replied env (printed t) u) (InDbus env) (dbus_query env (text "test") t)
dbus_query-InDbus env t =
    go (dbus_query env (text "test") t) refl (dbus_query-Ends env (text "test") t)
  where
    go :
        (r : Result (Unit {0}))
        → dbus_query env (text "test") t ≡ r
        → Ends (λ _ u. Replied env (printed t) u) (λ u. printed u ≡ printed t) r
        → Ends (λ _ u. Replied env (printed t) u) (InDbus env) r
    go (done a u) e h = h
    go (fault u) e h = h
    go (exited u) e h = (t, e)

module _ (env : Env) (lib : Containers) (lawful : IsLawful lib) (sane : IsSane env) where
  unsubscribe-Total : (b : Bool) (t : Trace) → Total (unsubscribe env lib b t)
  unfolding unsubscribe
  unsubscribe-Total true t = tt
  unsubscribe-Total false t = tt

  pub unsubscribes-Total :
      (a b c : Bool) (t : Trace)
      → Total ((unsubscribe env lib a >> (unsubscribe env lib b >> unsubscribe env lib c)) t)
  unsubscribes-Total a b c t =
      Returns-bind (λ _ _. Unit {0}) (λ _ _. Unit {0}) (unsubscribe env lib a)
        (λ _. unsubscribe env lib b >> unsubscribe env lib c) t (unsubscribe-Total a t)
        λ _ u _.
          Returns-bind (λ _ _. Unit {0}) (λ _ _. Unit {0}) (unsubscribe env lib b)
            (λ _. unsubscribe env lib c) u (unsubscribe-Total b u) (λ _ v _. unsubscribe-Total c v)

-- ===== src/Main/Program.antt =====
-- main.c: what a run of the program is, as a sequence of phases, and that main goes through them.
use tsn.Base.{ℕ, ◌≡◌, true, false, Bool, Cases, ◌∷◌}
use tsn.Runtime.{
  Env, Trace, Call, sr_connect, sr_session_start, sr_unsubscribe, sr_oper_get_subscribe,
}
use tsn.Runtime.Containers.{Containers, IsLawful}
use tsn.Runtime.Always.{IsOrder}
use tsn.Runtime.Footprint.{Grows, Grows-IsOrder}
use tsn.Runtime.Ends.{Ends}
use tsn.Runtime.Netlink.Laws.{is_filled}
use tsn.Interface.Collect.{Interfaces}
use tsn.Interface.Collect.Content.{Links, IsCache}
use tsn.Interface.Names.{Names}
use tsn.Lldp.{Xml}
use tsn.Hardware.Save.Written.{ChassisSet}
use tsn.Bridge.Vlan.{CJson}
use tsn.Bridge.Collect.Content.{Machine, IsMachine}
use tsn.Bridge.Publish.{BridgesSet}
use tsn.Dbus.Laws.{Replied, printed}
use tsn.Main.{interfaces_module, lldp_module, statistics_xpath, oper_status_xpath, lldp_xpath}
use tsn.Main.Loop.{Serves, RefreshesIps}
use tsn.Main.Publish.{Collected, Saved}
use tsn.Main.Startup.{IsSane, deleted}

-- What the program relies on: sane answers, a cache of links that is always filled and tells the
-- same whenever it is read, and a bridge command that runs.
pub record IsHealthy (env : Env) (links : Links) (machine : Machine) : Type 0 where
  pub sane : IsSane env
  pub cache : IsCache env links
  pub bridges : IsMachine env machine
  pub filled : (t : Trace) → is_filled env t ≡ true

-- The trace after the three subscriptions.
abbrev pub subscribed : Trace → Trace
subscribed t =
    sr_oper_get_subscribe lldp_module lldp_xpath
    ∷ sr_oper_get_subscribe interfaces_module oper_status_xpath
    ∷ sr_oper_get_subscribe interfaces_module statistics_xpath
    ∷ t

abbrev is_unsubscribe : Call → Bool
is_unsubscribe sr_unsubscribe = true
is_unsubscribe _ = false

module _ (env : Env) (lib : Containers) (xml : Xml) (cjson : CJson) (links : Links)
    (machine : Machine) (rounds : ℕ) where
  -- The program with its session open, as it is meant: what the last run left is deleted; then the
  -- interfaces are written, the chassis, the addresses, the reply of D-Bus is printed, the bridges
  -- are written, the callback is subscribed, the rounds of the loop follow, and the callback is
  -- unsubscribed.
  pub data Runs (t : Trace) : Trace → Type 0 where
    phases :
        (interfaces : Interfaces) {u : Trace} (a b c d e f g : Trace)
        → Collected env lib links (deleted t) interfaces a
        → Saved interfaces a b
        → ChassisSet env lib xml b c
        → RefreshesIps env lib interfaces c d
        → Replied env (printed d) e
        → BridgesSet env lib cjson machine e f
        → Serves env lib interfaces rounds (subscribed f) g
        → Grows is_unsubscribe g u
        → Runs t u

  -- The whole program: it connects and opens its session, and where it could, it runs.
  abbrev pub RunsIfOpened : Trace → Trace → Type 0
  RunsIfOpened t u =
      let connected = sr_connect ∷ t in
      let started = sr_session_start ∷ connected in
      Cases (env.succeeds connected) (Cases (env.succeeds started) (Runs started u) (u ≡ started))
        (u ≡ connected)

module _ (env : Env) (lib : Containers) (lawful : IsLawful lib) (cjson : CJson) (links : Links)
    (machine : Machine) (healthy : IsHealthy env links machine) (rounds : ℕ) where
  order : IsOrder (Grows is_unsubscribe)
  order = Grows-IsOrder is_unsubscribe

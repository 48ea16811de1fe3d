-- ===== src/Main/Footprint.antt =====
-- main.c: what every run of the program keeps, its parts put together.
use tsn.Base.{ℕ, zero, suc, Bool, true, false, not, arith, ◌∷◌}
use tsn.Runtime.{
  Trace, Env, Call, run, ◌>>◌, socket, close, popen, pclose, open_file, close_file, siocethtool,
  siocgifmtu, siocgifflags, sleep,
}
use tsn.Runtime.Containers.{Containers}
use tsn.Runtime.Always.{IsOrder, Always, Always-pure, Always-bind, Steps, always_rules}
use tsn.Runtime.Netlink.Footprint.{is_frame}
use tsn.Lldp.{Xml}
use tsn.Interface.Collect.{Interfaces}
use tsn.Interface.Collect.Footprint.{collects, collect_interfaces-Always}
use tsn.Interface.Ips.Footprint.{asks_addresses, AsksMtu}
use tsn.Interface.Names.{Names}
use tsn.Interface.Save.{update_ips, update_interfaces_speed}
use tsn.Interface.Save.Footprint.{
  writes_items, update_ips-Always, update_interfaces_speed-Always, save_interface_running-Always,
  save_interface_operational-Always,
}
use tsn.Interface.Speed.Footprint.{AsksSpeed}
use tsn.Hardware.Save.Footprint.{save_hardware_chassis-Always}
use tsn.Hardware.Versions.Footprint.{ReadsTexts}
use tsn.Bridge.Vlan.{CJson}
use tsn.Bridge.Collect.Footprint.{asks_bridges, AsksVlans, collect_bridges-Always}
use tsn.Bridge.Save.Footprint.{save_bridges-Always}
use tsn.Dbus.Footprint.{uses_dbus, dbus_query-Always}
use tsn.Main.{
  serve_loop, unsubscribe, data_provider, delete_old, save_interfaces, serve, session, main,
}

module _ (env : Env) (lib : Containers) {R : Trace → Trace → Type 0} (order : IsOrder R)
    (mtu_of : AsksMtu env R) (speed_of : AsksSpeed env R) where
  pub serve_loop-Always :
      Steps R asks_addresses
      → Steps R writes_items
      → ((t : Trace) → R t (sleep ∷ t))
      → (rounds : ℕ) (interfaces : Interfaces) → Always R (serve_loop env lib rounds interfaces)
  unfolding serve_loop
  serve_loop-Always asks writes sleeps zero interfaces = Always-pure order tt
  serve_loop-Always asks writes sleeps (suc rounds) interfaces =
      Always-bind order (run sleep)
        (λ _.
          update_ips env lib interfaces
          >> (update_interfaces_speed env lib interfaces >> serve_loop env lib rounds interfaces))
        (search (always_rules, sleeps))
        λ _.
          Always-bind order (update_ips env lib interfaces) _
            (search (update_ips-Always, asks, writes, mtu_of, speed_of))
            λ _.
              Always-bind order (update_interfaces_speed env lib interfaces) _
                (search (update_interfaces_speed-Always, asks, writes, mtu_of, speed_of))
                λ _. serve_loop-Always asks writes sleeps rounds interfaces

-- The calls that take, use and give back a descriptor or the stream of a command.
abbrev pub is_owner : Call → Bool
is_owner socket = true
is_owner close = true
is_owner (siocethtool name) = true
is_owner (siocgifmtu name) = true
is_owner (siocgifflags name) = true
is_owner (popen command) = true
is_owner pclose = true
is_owner (open_file path) = true
is_owner close_file = true
is_owner _ = false

module _ (env : Env) (lib : Containers) {R : Trace → Trace → Type 0} (order : IsOrder R)
    (mtu_of : AsksMtu env R) (speed_of : AsksSpeed env R)
    (others : Steps R (λ c. not (is_owner c))) where
  frame : Steps R is_frame
  frame c h = others c (ground arith)

  collecting : Steps R collects
  collecting c h = others c (ground arith)

  addresses : Steps R asks_addresses
  addresses c h = others c (ground arith)

  writing : Steps R writes_items
  writing c h = others c (ground arith)

  bridges_of : Steps R asks_bridges
  bridges_of c h = others c (ground arith)

  dbus : Steps R uses_dbus
  dbus c h = others c (ground arith)

  delete_old-Always : Always R delete_old
  unfolding delete_old
  delete_old-Always = search (always_rules, others) depth 12

  save_interfaces-Always : (interfaces : Interfaces) → Always R (save_interfaces env interfaces)
  unfolding save_interfaces
  save_interfaces-Always interfaces =
      search
        (
          always_rules, others, writing, save_interface_running-Always,
          save_interface_operational-Always,
        )
        depth 12

  unsubscribe-Always : (subscribed : Bool) → Always R (unsubscribe env lib subscribed)
  unfolding unsubscribe
  unsubscribe-Always subscribed = search (always_rules, others)

  data_provider-Always :
      (rounds : ℕ) (interfaces : Interfaces) → Always R (data_provider env lib rounds interfaces)
  unfolding data_provider
  data_provider-Always rounds interfaces =
      search
        (
          always_rules, others, addresses, writing, mtu_of, speed_of, serve_loop-Always,
          unsubscribe-Always,
        )
        depth 16

  module _ (xml : Xml) (cjson : CJson) (texts : ReadsTexts env lib R)
      (vlans : AsksVlans env lib cjson R) where
    serve-Always : (rounds : ℕ) → Always R (serve env lib xml cjson rounds)
    unfolding serve
    serve-Always rounds =
        search
          (
            always_rules, others, frame, collecting, addresses, writing, texts, vlans, bridges_of,
            dbus, mtu_of, speed_of, delete_old-Always, collect_interfaces-Always,
            save_interfaces-Always, save_hardware_chassis-Always, update_ips-Always,
            dbus_query-Always, collect_bridges-Always, save_bridges-Always, data_provider-Always,
          )
          depth 16

    session-Always : (rounds : ℕ) → Always R (session env lib xml cjson rounds)
    unfolding session
    session-Always rounds = search (always_rules, others, serve-Always) depth 12

    pub main-Always : (rounds : ℕ) (names : Names) → Always R (main env lib xml cjson rounds names)
    unfolding main
    main-Always rounds names = search (always_rules, others, session-Always) depth 12

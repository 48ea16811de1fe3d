-- ===== src/Main/Descriptors.antt =====
-- main.c: the descriptors and streams that a whole run of the program leaves open.
use tsn.Base.{ℕ, arith, not, Bool-cases, inl, inr, ◌∷◌}
use tsn.Runtime.{Env, Trace, socket, siocethtool}
use tsn.Runtime.Always.{Steps, trace_of}
use tsn.Runtime.Containers.{Containers}
use tsn.Runtime.Leaks.{Leaks, Leaks-IsOrder}
use tsn.Hardware.Versions.Leaks.{texts-Leaks}
use tsn.Bridge.Collect.Leaks.{get_bridge_vlan-Leaks}
use tsn.Lldp.{Xml}
use tsn.Interface.Ips.{get_interface_mtu_and_flags}
use tsn.Interface.Ips.Footprint.{AsksMtu}
use tsn.Interface.Names.{Names}
use tsn.Interface.Speed.{get_interface_speed}
use tsn.Interface.Speed.Footprint.{AsksSpeed}
use tsn.Bridge.Vlan.{CJson}
use tsn.Main.{main}
use tsn.Main.Footprint.{is_owner, main-Always}

module _ (env : Env) where
  Leaks-others : Steps (Leaks env) (λ c. not (is_owner c))
  Leaks-others c h t = (ground arith, ground arith, ground arith)

  get_interface_speed-Leaks : AsksSpeed env (Leaks env)
  unfolding get_interface_speed
  get_interface_speed-Leaks name = record {
    at = λ t. elim (Bool-cases (env.succeeds (socket ∷ t))) [
      | inr e ↦ rw e (ground arith, omega arith, omega arith)
      | inl e ↦ elim (Bool-cases (env.succeeds (siocethtool name ∷ socket ∷ t))) [
        | inl k ↦ rw (e, k) (ground arith, omega arith, omega arith)
        | inr k ↦ rw (e, k) (ground arith, omega arith, omega arith)
      ]
    ];
  }

  get_interface_mtu_and_flags-Leaks : AsksMtu env (Leaks env)
  unfolding get_interface_mtu_and_flags
  get_interface_mtu_and_flags-Leaks name mtu flags = record {
    at = λ t. elim (Bool-cases (env.succeeds (socket ∷ t))) [
      | inr e ↦ rw e (ground arith, omega arith, omega arith)
      | inl e ↦ rw e (ground arith, omega arith, omega arith)
    ];
  }

  -- For every number of rounds, and however the program ends, be it at a null pointer or in `exit`:
  -- of the sockets that it has opened it has closed all but one for each SIOCETHTOOL that failed;
  -- it has closed as many streams as it has started commands, and has called `close` on a file as
  -- often as `open`, a failed `open` included. What the callback takes does not count here.
  pub main-Leaks :
      (lib : Containers) (xml : Xml) (cjson : CJson) (rounds : ℕ) (names : Names) (t : Trace)
      → Leaks env t (trace_of (main env lib xml cjson rounds names t))
  main-Leaks lib xml cjson rounds names t =
      (main-Always env lib (Leaks-IsOrder env) get_interface_mtu_and_flags-Leaks
          get_interface_speed-Leaks Leaks-others xml cjson (texts-Leaks env lib)
          (get_bridge_vlan-Leaks env lib cjson) rounds names).at
        t

-- ===== src/Bridge/Collect/Leaks.antt =====
-- bridge.c, get_bridge_vlan: the stream of the command is closed.
use tsn.Base.{arith, Bool-cases, inl, inr, ◌∷◌}
use tsn.Runtime.{Env, popen}
use tsn.Runtime.Containers.{Containers}
use tsn.Runtime.Leaks.{Leaks}
use tsn.Runtime.Streams.Laws.{read_all_total}
use tsn.Bridge.Vlan.{CJson}
use tsn.Bridge.Collect.{command, read_vlans, get_bridge_vlan}
use tsn.Bridge.Collect.Footprint.{AsksVlans}

pub get_bridge_vlan-Leaks :
    (env : Env) (lib : Containers) (cjson : CJson) → AsksVlans env lib cjson (Leaks env)
unfolding get_bridge_vlan read_vlans
get_bridge_vlan-Leaks env lib cjson name = record {
  at = λ t.
      let start = popen (command name) ∷ t in
      let (output, e) = read_all_total lib 1022 (env.contents start) in
      elim (Bool-cases (env.succeeds start)) [
        | inl i ↦ rw (i, e) (omega arith, ground arith, omega arith)
        | inr i ↦ rw i (omega arith, ground arith, omega arith)
      ];
}

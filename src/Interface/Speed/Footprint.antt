-- ===== src/Interface/Speed/Footprint.antt =====
-- interface.c, get_interface_speed: the calls that it makes.
use tsn.Base.{CStr, Bool, true, false}
use tsn.Runtime.{Trace, Env, Call, socket, close, siocethtool}
use tsn.Runtime.Always.{IsOrder, Always, Steps, always_rules}
use tsn.Interface.Speed.{read_speed, get_interface_speed}

-- The calls that ask the kernel for a speed.
abbrev pub asks_speed : Call → Bool
asks_speed socket = true
asks_speed close = true
asks_speed (siocethtool name) = true
asks_speed _ = false

-- That `get_interface_speed` keeps a relation.
abbrev pub AsksSpeed : Env → (Trace → Trace → Type 0) → Type 0
AsksSpeed env R = (name : CStr) → Always R (get_interface_speed env name)

pub get_interface_speed-Always :
    (env : Env) {R : Trace → Trace → Type 0} (order : IsOrder R) (asks : Steps R asks_speed)
    → AsksSpeed env R
unfolding get_interface_speed read_speed
get_interface_speed-Always env order asks name = search (always_rules, asks) depth 12

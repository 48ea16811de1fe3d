-- ===== src/Interface/Save/Speeds.antt =====
-- interface.c, update_interfaces_speed: the speeds that it sets, and where.
use tsn.Base.{CStr, Cases, none, some, List, [], ◌∷◌, ◌++◌, ◌≡◌, map, concat_map}
use tsn.Runtime.{Env, Trace, IfAddr, Val, u64, operational, getifaddrs}
use tsn.Runtime.Containers.{Containers}
use tsn.Runtime.Records.{sets, session_ds, written}
use tsn.Interface.{Interface}
use tsn.Interface.Collect.{Interfaces}
use tsn.Interface.Speed.{speed_bps}
use tsn.Interface.Speed.Laws.{speed_at}
use tsn.Interface.Save.{interface_path}
use tsn.Interface.Save.Laws.{speed_paths}

module _ (env : Env) (lib : Containers) (interfaces : Interfaces) where
  -- What the addresses give: for each whose name is an interface, the speed that the kernel gave
  -- when it was asked.
  pub data Speeds : List IfAddr → List (CStr × Val) → Type 0 where
    end : Speeds [] []
    skip :
        {a : IfAddr} {next : List IfAddr} {out : List (CStr × Val)}
        → lib.shash_find_data Interface interfaces a.ifa_name ≡ none
        → Speeds next out
        → Speeds (a ∷ next) out
    set :
        {a : IfAddr} {next : List IfAddr} {out : List (CStr × Val)}
        → (intf : Interface) → lib.shash_find_data Interface interfaces a.ifa_name ≡ some intf
        → (asked : Trace) → Speeds next out
        → Speeds (a ∷ next) (
            (interface_path a.ifa_name "speed", u64 (speed_bps (speed_at env a.ifa_name asked)))
            ∷ out)

  -- What a round adds.
  abbrev Gives : IfAddr → Trace → Trace → Type 0
  Gives a t u =
      (made : List (CStr × Val)) × ((next : List IfAddr) (rest : List (CStr × Val))
        → Speeds next rest
        → Speeds (a ∷ next) (made ++ rest))
      × (sets u ≡ sets t ++ made)

  -- What a call does, from the answer that getifaddrs then gives.
  abbrev pub RefreshesSpeeds : Trace → Trace → Type 0
  RefreshesSpeeds t u =
      let addrs = env.ifaddrs (getifaddrs ∷ t) in
      (session_ds u ≡ session_ds t)
      × Cases (env.succeeds (getifaddrs ∷ t))
          ((written u
              ≡ written t
                ++ map (λ p. (operational, p)) (concat_map (speed_paths lib interfaces) addrs))
            × ((made : List (CStr × Val)) × Speeds addrs made × (sets u ≡ sets t ++ made)))
          ((written u ≡ written t) × (sets u ≡ sets t))

  module _ (t : Trace) where
    abbrev addrs : List IfAddr
    addrs = env.ifaddrs (getifaddrs ∷ t)

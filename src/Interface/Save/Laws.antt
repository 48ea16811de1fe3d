-- ===== src/Interface/Save/Laws.antt =====
-- interface.c: in which datastore each item is set, and that the session is given back as it was.
use tsn.Base.{
  text, Bool-cases, inl, inr, Option, none, some, List, [], ◌∷◌, ◌++◌, append-nil, ◌≡◌, refl, sym,
  ap, ◌∙◌, CStr, concat_map, map, if◌then◌else◌,
}
use tsn.Runtime.{
  identityref, enumeration, str, i32, Val, Env, Trace, M, IfAddr, Datastore, operational,
  sr_apply_changes, getifaddrs, socket, siocethtool, for_each, pure, sr_set_item, u64,
}
use tsn.Runtime.Containers.{Containers}
use tsn.Runtime.Laws.{Returns, Returns-bind, Returns-mono, for_each-Writes, Writes-trans}
use tsn.Runtime.Records.{set_all, session_ds, written, Writes}
use tsn.Interface.{Interface}
use tsn.Interface.Collect.{Interfaces}
use tsn.Interface.Speed.{get_interface_speed, speed_bps}
use tsn.Interface.Save.{
  save_interface_running, save_interface_operational, interface_path, apply_or_discard, speed_round,
  set_speed, update_interfaces_speed,
}

pub apply_or_discard-Writes :
    (env : Env) (ds : Datastore) (t : Trace)
    → session_ds t ≡ ds
    → Returns (λ _ u. Writes ds [] t u) (apply_or_discard env t)
unfolding apply_or_discard
apply_or_discard-Writes env ds t h = elim (Bool-cases (env.succeeds (sr_apply_changes ∷ t))) [
  | inl e ↦ rw e (h, sym (append-nil (written t)))
  | inr e ↦ rw e (h, sym (append-nil (written t)))
]

get_interface_speed-Writes :
    (env : Env) (name : CStr) (ds : Datastore) (t : Trace)
    → session_ds t ≡ ds
    → Returns (λ _ u. Writes ds [] t u) (get_interface_speed env name t)
unfolding get_interface_speed
get_interface_speed-Writes env name ds t h = elim (Bool-cases (env.succeeds (socket ∷ t))) [
  | inr e ↦ rw e (h, sym (append-nil (written t)))
  | inl e ↦ elim (Bool-cases (env.succeeds (siocethtool name ∷ socket ∷ t))) [
    | inl r ↦ rw (e, r) (h, sym (append-nil (written t)))
    | inr r ↦ rw (e, r) (h, sym (append-nil (written t)))
  ]
]

-- The speed is set for an address whose name is one of the interfaces.
abbrev pub speed_paths : Containers → Interfaces → IfAddr → List CStr
speed_paths lib interfaces a = elim (lib.shash_find_data Interface interfaces a.ifa_name) [
  | none ↦ []
  | some _ ↦ interface_path a.ifa_name "speed" ∷ []
]

set_speed-Writes :
    (env : Env) (name : CStr) (t : Trace)
    → session_ds t ≡ operational
    → Returns
        (λ _ u. Writes operational (interface_path name "speed" ∷ []) t u)
        (set_speed env name t)
unfolding set_speed
set_speed-Writes env name t h =
    Returns-bind (λ _ u. Writes operational [] t u)
      (λ _ u. Writes operational (interface_path name "speed" ∷ []) t u)
      (get_interface_speed env name) _ t (get_interface_speed-Writes env name operational t h)
      (λ speed u (d, e).
        let set = sr_set_item (interface_path name "speed") (u64 (speed_bps speed)) in
        Returns-mono (λ _ v. Writes operational [] (set ∷ u) v)
          (λ _ v. Writes operational (interface_path name "speed" ∷ []) t v)
          (apply_or_discard env (set ∷ u))
          (λ _ v (f, g). (
            f,
            g
                ∙ append-nil _
                ∙ ap (λ l. l ++ ((session_ds u, interface_path name "speed") ∷ []))
                    (e ∙ append-nil (written t))
                ∙ ap (λ ds. written t ++ ((ds, interface_path name "speed") ∷ [])) d,
          ))
          (apply_or_discard-Writes env operational (set ∷ u) d))

speed_round-Writes :
    (env : Env) (lib : Containers) (interfaces : Interfaces) (a : IfAddr) (t : Trace)
    → session_ds t ≡ operational
    → Returns
        (λ _ u. Writes operational (speed_paths lib interfaces a) t u)
        (speed_round env lib interfaces a t)
unfolding speed_round
speed_round-Writes env lib interfaces a t h =
    go (lib.shash_find_data Interface interfaces a.ifa_name)
  where
    go :
        (found : Option Interface)
        → Returns
            (λ _ u.
              Writes operational
                (elim found [ none ↦ [] | some _ ↦ interface_path a.ifa_name "speed" ∷ [] ])
                t
                u)
            ((elim found as (λ _. M (Unit {0})) [
              | none ↦ pure tt
              | some _ ↦ set_speed env a.ifa_name
            ])
              t)
    go none = (h, sym (append-nil (written t)))
    go (some _) = set_speed-Writes env a.ifa_name t h

-- The paths of some items.
abbrev paths_of : List (CStr × Val) → List CStr
paths_of [] = []
paths_of ((path, val) ∷ items) = path ∷ paths_of items

set_all-Writes :
    (ds : Datastore) (items : List (CStr × Val)) (t : Trace)
    → session_ds t ≡ ds
    → Writes ds (paths_of items) t (set_all items t)
set_all-Writes ds [] t h = (h, sym (append-nil (written t)))
set_all-Writes ds ((path, val) ∷ items) t h =
    Writes-trans ds (path ∷ []) (paths_of items) t (sr_set_item path val ∷ t)
      (set_all items (sr_set_item path val ∷ t)) (h, ap (λ d. written t ++ ((d, path) ∷ [])) h)
      (set_all-Writes ds items (sr_set_item path val ∷ t) h)

-- What is set for an interface in the running datastore, and in the operational one.
abbrev pub running_paths : Interface → List CStr
running_paths intf = interface_path intf.name "type" ∷ []

abbrev pub operational_paths : Interface → List CStr
operational_paths intf =
    interface_path intf.name "admin-status"
    ∷ interface_path intf.name "phys-address"
    ∷ interface_path intf.name "if-index"
    ∷ interface_path intf.name "speed"
    ∷ []

-- Items that are set and applied.
set_and_apply :
    (env : Env) (ds : Datastore) (items : List (CStr × Val)) (t : Trace)
    → session_ds t ≡ ds
    → Returns (λ _ v. Writes ds (paths_of items) t v) (apply_or_discard env (set_all items t))
set_and_apply env ds items t h =
    let w = set_all-Writes ds items t h in
    Returns-mono (λ _ v. Writes ds [] (set_all items t) v) (λ _ v. Writes ds (paths_of items) t v)
      (apply_or_discard env (set_all items t))
      (λ _ v (d, e). (d, e ∙ append-nil (written (set_all items t)) ∙ w.1))
      (apply_or_discard-Writes env ds (set_all items t) w.0)

pub save_interface_running-Writes :
    (env : Env) (ds : Datastore) (intf : Interface) (t : Trace)
    → session_ds t ≡ ds
    → Returns (λ _ u. Writes ds (running_paths intf) t u) (save_interface_running env intf t)
unfolding save_interface_running
save_interface_running-Writes env ds intf t h =
    set_and_apply env ds
      ((interface_path intf.name "type", identityref (text "iana-if-type:ethernetCsmacd")) ∷ []) t h

pub save_interface_operational-Writes :
    (env : Env) (ds : Datastore) (intf : Interface) (t : Trace)
    → session_ds t ≡ ds
    → Returns
        (λ _ u. Writes ds (operational_paths intf) t u)
        (save_interface_operational env intf t)
unfolding save_interface_operational
save_interface_operational-Writes env ds intf t h =
    set_and_apply env ds
      ((interface_path intf.name "admin-status", enumeration (text "up"))
        ∷ (interface_path intf.name "phys-address", str (some intf.hw_addr))
        ∷ (interface_path intf.name "if-index", i32 intf.index)
        ∷ (interface_path intf.name "speed", u64 intf.speed)
        ∷ [])
      t h

-- If `sr_session_get_ds` tells the truth, then `update_interfaces_speed` returns with the session
-- in the datastore that it found. Where `getifaddrs` succeeds, it sets the speed for each address
-- in order whose name is an interface, each in the operational datastore, whatever fails; where it
-- fails, nothing is done.
pub update_interfaces_speed-written :
    (env : Env) (lib : Containers) (interfaces : Interfaces) (t : Trace)
    → ((u : Trace) → env.get_ds u ≡ session_ds u)
    → Returns
        (λ _ u.
          (session_ds u ≡ session_ds t)
          × (written u ≡ (
              if env.succeeds (getifaddrs ∷ t)
              then written t
                ++ map
                    (λ p. (operational, p))
                    (concat_map (speed_paths lib interfaces) (env.ifaddrs (getifaddrs ∷ t)))
              else written t)))
        (update_interfaces_speed env lib interfaces t)
unfolding update_interfaces_speed
update_interfaces_speed-written env lib interfaces t honest =
    elim (Bool-cases (env.succeeds (getifaddrs ∷ t))) [
      | inr e ↦ rw e (refl, refl)
      | inl e ↦ rw e (
          Returns-bind
            (λ _ u.
              Writes operational
                (concat_map (speed_paths lib interfaces) (env.ifaddrs (getifaddrs ∷ t))) t u)
            _ (for_each (env.ifaddrs (getifaddrs ∷ t)) (speed_round env lib interfaces)) _ _
            (for_each-Writes operational (speed_paths lib interfaces)
              (speed_round env lib interfaces) (speed_round-Writes env lib interfaces)
              (env.ifaddrs (getifaddrs ∷ t)) _ refl)
            (λ _ u (d, k). (honest _, k)))
    ]

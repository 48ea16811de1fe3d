-- ===== src/Main/Laws.antt =====
-- main.c: in which datastore the startup writes the interfaces.
use tsn.Base.{List, ◌∷◌, ◌++◌, ◌≡◌, refl, ap, ◌∙◌, CStr, concat_map, map}
use tsn.Runtime.{Env, Trace, running, operational, sr_session_switch_ds, for_each}
use tsn.Runtime.Laws.{Returns, Returns-bind, for_each-Writes}
use tsn.Runtime.Records.{session_ds, written, Writes}
use tsn.Interface.Collect.{Interfaces}
use tsn.Interface.Save.{save_interface_running, save_interface_operational}
use tsn.Interface.Save.Laws.{
  running_paths, operational_paths, save_interface_running-Writes,
  save_interface_operational-Writes,
}
use tsn.Main.{save_interfaces}

-- The items of all interfaces, in the order of the map.
abbrev pub in_running : Interfaces → List CStr
in_running = concat_map λ (key, intf). running_paths intf

abbrev pub in_operational : Interfaces → List CStr
in_operational = concat_map λ (key, intf). operational_paths intf

-- On a session in the running datastore the startup returns, whatever sysrepo answers. It has set
-- the type of each interface in the running datastore, then the four leaves of each in the
-- operational one, and the session is in the running datastore again.
pub save_interfaces-written :
    (env : Env) (interfaces : Interfaces) (t : Trace)
    → session_ds t ≡ running
    → Returns
        (λ _ u.
          (session_ds u ≡ running)
          × (written u
              ≡ (written t ++ map (λ p. (running, p)) (in_running interfaces))
                ++ map (λ p. (operational, p)) (in_operational interfaces)))
        (save_interfaces env interfaces t)
unfolding save_interfaces
save_interfaces-written env interfaces t h =
    Returns-bind (λ _ u. Writes running (in_running interfaces) t u) _
      (for_each interfaces λ (key, intf). save_interface_running env intf) _ t
      (for_each-Writes running (λ (key, intf). running_paths intf)
        (λ (key, intf). save_interface_running env intf)
        (λ (key, intf) u k. save_interface_running-Writes env running intf u k) interfaces t h)
      (λ _ u (d, e).
        Returns-bind
          (λ _ v.
            Writes operational (in_operational interfaces) (sr_session_switch_ds operational ∷ u) v)
          _ (for_each interfaces λ (key, intf). save_interface_operational env intf) _
          (sr_session_switch_ds operational ∷ u)
          (for_each-Writes operational (λ (key, intf). operational_paths intf)
            (λ (key, intf). save_interface_operational env intf)
            (λ (key, intf) v k. save_interface_operational-Writes env operational intf v k)
            interfaces _ refl)
          (λ _ v (f, g).
            (refl, g ∙ ap (λ l. l ++ map (λ p. (operational, p)) (in_operational interfaces)) e)))

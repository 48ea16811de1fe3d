-- ===== src/Hardware/Save/Laws.antt =====
-- hardware.c: in which datastore each item of the chassis is set.
use tsn.Base.{
  Bool, false, Bool-cases, inl, inr, Option, none, some, List, [], ◌∷◌, ◌++◌, append_assoc,
  append-nil, ◌≡◌, refl, sym, ap, ◌∙◌, CStr, text, if◌then◌else◌,
}
use tsn.Runtime.{
  Env, Trace, Datastore, running, operational, sr_set_item, sr_apply_changes, identityref, run,
  done, str, sr_session_switch_ds,
}
use tsn.Runtime.Laws.{Returns, Returns-bind, Returns-mono}
use tsn.Runtime.Records.{session_ds, written, Writes}
use tsn.Interface.Save.{apply_or_discard}
use tsn.Interface.Save.Laws.{apply_or_discard-Writes}
use tsn.Runtime.Containers.{Containers}
use tsn.Lldp.{Xml}
use tsn.Hardware.Versions.{get_hardware_version, get_software_version, get_chassis_id}
use tsn.Hardware.Versions.Laws.{
  Sourced, get_hardware_version-Sourced, get_software_version-Total, get_chassis_id-Total,
}
use tsn.Hardware.Save.{hardware_path, save_chassis, save_operational, save_hardware_chassis}

-- The step that sets the class.
abbrev pub class_set : CStr → Trace → Trace
class_set id t =
    sr_set_item (hardware_path id "class") (identityref (text "iana-hardware:chassis")) ∷ t

-- Whether the class was set and applied.
abbrev pub class_applied : Env → CStr → Trace → Bool
class_applied env id t =
    if env.succeeds (class_set id t)
    then env.succeeds (sr_apply_changes ∷ class_set id t)
    else false

-- What is set after the class.
abbrev pub operational_items : CStr → List (Datastore × CStr)
operational_items id =
    (operational, hardware_path id "hardware-rev")
    ∷ (operational, hardware_path id "software-rev")
    ∷ (operational, hardware_path id "serial-num")
    ∷ (operational, hardware_path id "mfg-name")
    ∷ []

append_four :
    {A : Type 0} (xs : List A) (a b c d : A)
    → ((((xs ++ (a ∷ [])) ++ (b ∷ [])) ++ (c ∷ [])) ++ (d ∷ [])) ≡ xs ++ (a ∷ b ∷ c ∷ d ∷ [])
append_four xs a b c d =
    append_assoc (((xs ++ (a ∷ [])) ++ (b ∷ []))) (c ∷ []) (d ∷ [])
    ∙ append_assoc (xs ++ (a ∷ [])) (b ∷ []) (c ∷ d ∷ [])
    ∙ append_assoc xs (a ∷ []) (b ∷ c ∷ d ∷ [])

-- The trace after the four leaves.
abbrev leaves_set : CStr → Option CStr → Option CStr → Trace → Trace
leaves_set id hw sw t =
    sr_set_item (hardware_path id "mfg-name") (str (some (text "openil")))
    ∷ sr_set_item (hardware_path id "serial-num") (str (some (text "202102090245")))
    ∷ sr_set_item (hardware_path id "software-rev") (str sw)
    ∷ sr_set_item (hardware_path id "hardware-rev") (str hw)
    ∷ sr_session_switch_ds operational
    ∷ t

save_operational-written :
    (env : Env) (id : CStr) (hw sw : Option CStr) (t : Trace)
    → Returns
        (λ _ u. (session_ds u ≡ running) × (written u ≡ written t ++ operational_items id))
        (save_operational env id hw sw t)
unfolding save_operational
save_operational-written env id hw sw t =
    Returns-bind (λ _ u. Writes operational [] (leaves_set id hw sw t) u)
      (λ _ u. (session_ds u ≡ running) × (written u ≡ written t ++ operational_items id))
      (apply_or_discard env) (λ _. run (sr_session_switch_ds running)) (leaves_set id hw sw t)
      (apply_or_discard-Writes env operational (leaves_set id hw sw t) refl)
      (λ _ u (d, e). (refl, e ∙ append-nil _ ∙ append_four (written t) _ _ _ _))

-- What `save_hardware_chassis` does once the versions and the id are read, on a session in the
-- running datastore. With an id it sets the class there, and only where that was set and applied
-- does it set the four leaves, in the operational datastore; in every case it returns with the
-- session in the running datastore. Without an id it does nothing.
pub save_chassis-written :
    (env : Env) (id : CStr) (hw sw : Option CStr) (t : Trace)
    → session_ds t ≡ running
    → Returns
        (λ _ u.
          (session_ds u ≡ running)
          × (written u
              ≡ (written t ++ ((running, hardware_path id "class") ∷ []))
                ++ (if class_applied env id t then operational_items id else [])))
        (save_chassis env hw sw (some id) t)
      × (save_chassis env hw sw none t ≡ done tt t)
unfolding save_chassis
save_chassis-written env id hw sw t h = (
  (elim (Bool-cases (env.succeeds (class_set id t))) [
    | inr e ↦ rw e (h, class_written t h ∙ sym (append-nil _))
    | inl e ↦ elim (Bool-cases (env.succeeds (sr_apply_changes ∷ class_set id t))) [
      | inr r ↦ rw (e, r) (h, class_written t h ∙ sym (append-nil _))
      | inl r ↦
          rw (e, r)
            (Returns-mono
              (λ _ u.
                (session_ds u ≡ running)
                × (written u ≡ written (sr_apply_changes ∷ class_set id t) ++ operational_items id))
              (λ _ u.
                (session_ds u ≡ running)
                × (written u
                    ≡ (written t ++ ((running, hardware_path id "class") ∷ []))
                      ++ operational_items id))
              (save_operational env id hw sw (sr_apply_changes ∷ class_set id t))
              (λ _ u (d, k). (d, k ∙ ap (λ l. l ++ operational_items id) (class_written t h)))
              (save_operational-written env id hw sw (sr_apply_changes ∷ class_set id t)))
    ]
  ]),
  refl,
)
  where
    class_written :
        (t : Trace)
        → session_ds t ≡ running
        → written t ++ ((session_ds t, hardware_path id "class") ∷ [])
          ≡ written t ++ ((running, hardware_path id "class") ∷ [])
    class_written t h = ap (λ ds. written t ++ ((ds, hardware_path id "class") ∷ [])) h

-- `save_hardware_chassis` returns, whatever it reads and whatever sysrepo answers.
pub save_hardware_chassis_total :
    (env : Env) (lib : Containers) (xml : Xml) (t : Trace)
    → Returns (λ _ _. Unit {0}) (save_hardware_chassis env lib xml t)
unfolding save_hardware_chassis
save_hardware_chassis_total env lib xml t =
    Returns-bind (Sourced env (text "uname -m")) _ (get_hardware_version env lib) _ t
      (get_hardware_version-Sourced env lib t)
      λ hw u _.
        Returns-bind (λ _ _. Unit {0}) _ (get_software_version env lib) _ u
          (get_software_version-Total env lib u)
          λ sw v _.
            Returns-bind (λ _ _. Unit {0}) _ (get_chassis_id env lib xml) _ v
              (get_chassis_id-Total env lib xml v) λ id w _. go hw sw id w
  where
    written_out :
        (id : CStr) (hw sw : Option CStr) (t : Trace)
        → Returns (λ _ _. Unit {0}) (save_operational env id hw sw t)
    written_out id hw sw t =
        Returns-mono
          (λ _ u. (session_ds u ≡ running) × (written u ≡ written t ++ operational_items id)) _
          (save_operational env id hw sw t) (λ _ _ _. tt) (save_operational-written env id hw sw t)

    go :
        (hw sw id : Option CStr) (t : Trace)
        → Returns (λ _ _. Unit {0}) (save_chassis env hw sw id t)
    go hw sw none t = tt
    go hw sw (some id) t = elim (Bool-cases (env.succeeds (class_set id t))) [
      | inr e ↦ rw e tt
      | inl e ↦ elim (Bool-cases (env.succeeds (sr_apply_changes ∷ class_set id t))) [
        | inl r ↦ rw (e, r) (written_out id hw sw (sr_apply_changes ∷ class_set id t))
        | inr r ↦ rw (e, r) tt
      ]
    ]

-- ===== src/Hardware/Save/Written.antt =====
-- hardware.c, save_hardware_chassis as a whole: what it writes, after reading versions and id.
use tsn.Base.{
  true, Option, none, some, List, [], ◌∷◌, ◌++◌, append_assoc, append-nil, ◌≡◌, sym, ap, ◌∙◌, arith,
  CStr, if◌then◌else◌,
}
use tsn.Runtime.{Env, Trace, M, Call, Datastore, running}
use tsn.Runtime.Containers.{Containers}
use tsn.Runtime.Always.{IsOrder, Steps}
use tsn.Runtime.Footprint.{Only, Grows, Grows-IsOrder, Grows-call, Returns-Only}
use tsn.Runtime.Laws.{Returns, Returns-bind, Returns-mono}
use tsn.Runtime.Records.{session_ds, written}
use tsn.Lldp.{Xml}
use tsn.Hardware.Versions.{get_hardware_version, get_software_version, get_chassis_id}
use tsn.Hardware.Versions.Footprint.{
  reads_texts, ReadsTexts, steps-ReadsTexts, get_hardware_version-Always,
  get_software_version-Always, get_chassis_id-Always,
}
use tsn.Hardware.Versions.Laws.{
  get_hardware_version-Sourced, get_software_version-Total, chassis_id_at,
  get_chassis_id-chassis_id_at,
}
use tsn.Hardware.Save.{hardware_path, save_chassis, save_hardware_chassis}
use tsn.Hardware.Save.Laws.{class_applied, operational_items, save_chassis-written}

-- The datastore of the session and what was written.
abbrev Written : Type 0
Written = Datastore × List (Datastore × CStr)

abbrev recorded : Trace → Written
recorded t = (session_ds t, written t)

reads_texts-recorded : (c : Call) (t : Trace) → reads_texts c ≡ true → recorded (c ∷ t) ≡ recorded t
reads_texts-recorded c t h = ground arith

-- What is written after `t` for a chassis of this id: its class, and the rest if that was applied.
abbrev pub chassis_items : Env → Option CStr → Trace → List (Datastore × CStr)
chassis_items env none t = []
chassis_items env (some id) t =
    (running, hardware_path id "class")
    ∷ (if class_applied env id t then operational_items id else [])

-- From `t` to `u` the chassis was written whose id the daemon gave when it was asked, if it gave
-- one.
abbrev pub ChassisSet : Env → Containers → Xml → Trace → Trace → Type 0
ChassisSet env lib xml t u =
    (session_ds u ≡ running)
    × ((asked v : Trace) × (written u
          ≡ written t ++ chassis_items env (chassis_id_at env lib xml asked) v))

module _ (env : Env) where
  save_chassis-items :
      (hw sw id : Option CStr) (t : Trace)
      → session_ds t ≡ running
      → Returns
          (λ _ u. (session_ds u ≡ running) × (written u ≡ written t ++ chassis_items env id t))
          (save_chassis env hw sw id t)
  unfolding save_chassis
  save_chassis-items hw sw none t h = (h, sym (append-nil (written t)))
  save_chassis-items hw sw (some id) t h =
      Returns-mono _ _ (save_chassis env hw sw (some id) t)
        (λ _ u (d, e). (d, e ∙ append_assoc (written t) _ _))
        (save_chassis-written env id hw sw t h).0

  -- Reading the texts writes nothing.
  reading :
      (P : Option CStr → Trace → Type 0) (m : M (Option CStr)) (t : Trace)
      → Only reads_texts m
      → Returns P (m t)
      → Returns (λ a u. P a u × (recorded u ≡ recorded t)) (m t)
  reading P m t only h = Returns-Only P recorded reads_texts m reads_texts-recorded only t h

  pub save_hardware_chassis-ChassisSet :
      (lib : Containers) (xml : Xml) (t : Trace)
      → session_ds t ≡ running
      → Returns (λ _ u. ChassisSet env lib xml t u) (save_hardware_chassis env lib xml t)
  unfolding save_hardware_chassis
  save_hardware_chassis-ChassisSet lib xml t h =
      Returns-bind _ _ (get_hardware_version env lib) _ t
        (reading _ (get_hardware_version env lib) t
          (get_hardware_version-Always env lib order texts)
          (get_hardware_version-Sourced env lib t))
        λ hw a (_, e).
          Returns-bind _ _ (get_software_version env lib) _ a
            (reading _ (get_software_version env lib) a
              (get_software_version-Always env lib order texts)
              (get_software_version-Total env lib a))
            λ sw b (_, f).
              Returns-bind _ _ (get_chassis_id env lib xml) _ b
                (reading _ (get_chassis_id env lib xml) b
                  (get_chassis_id-Always env lib order texts xml)
                  (get_chassis_id-chassis_id_at env lib xml b))
                λ id c (is, g).
                  let same : recorded c ≡ recorded t = g ∙ f ∙ e in
                  Returns-mono _ _ (save_chassis env hw sw id c)
                    (λ _ u (d, k). (
                      d,
                      (
                        b,
                        c,
                        k
                            ∙ ap (λ r. r.1 ++ chassis_items env id c) same
                            ∙ ap (λ i. written t ++ chassis_items env i c) is,
                      ),
                    ))
                    (save_chassis-items hw sw id c (ap (λ r. r.0) same ∙ h))
    where
      order : IsOrder (Grows reads_texts)
      order = Grows-IsOrder reads_texts

      step : Steps (Grows reads_texts) reads_texts
      step = Grows-call reads_texts

      texts : ReadsTexts env lib (Grows reads_texts)
      texts = steps-ReadsTexts env lib order step

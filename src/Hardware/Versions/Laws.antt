-- ===== src/Hardware/Versions/Laws.antt =====
-- hardware.c: the three readers come to an end, and which of them may give nothing.
use tsn.Base.{
  ap, ℕ, ◌≡◌, refl, Bool, true, false, Bool-cases, inl, inr, Option, none, some, List, [], ◌∷◌,
  CStr, text, if◌then◌else◌,
}
use tsn.Runtime.{M, Env, Trace, Result, deref, pure, popen, access, open_file}
use tsn.Runtime.Containers.{Containers}
use tsn.Runtime.Laws.{Returns, Returns-bind}
use tsn.Runtime.Streams.Laws.{read_all_total}
use tsn.Lldp.{Xml}
use tsn.Hardware.Texts.{trim_line_crlf, find_chassis_id, buffer_len}
use tsn.Runtime.Streams.{read_all}
use tsn.Hardware.Texts.Laws.{read_trimmed_total}
use tsn.Hardware.Versions.{
  command_output, open_contents, read_both, dmi_version, read_model, model_version, uname_version,
  or_else, both_readable, sys_model_path, product_name_path, get_hardware_version,
  get_software_version, get_chassis_id,
}

-- A text, or none for the reason that the last call, which starts a command, failed.
abbrev pub Sourced : Env → CStr → Option CStr → Trace → Type 0
Sourced env command (some s) u = Unit
Sourced env command none u = (t : Trace) × (u ≡ popen command ∷ t) × (env.succeeds u ≡ false)

-- What is known of a run that returns.
abbrev Total : {A : Type 0} → Result A → Type 0
Total r = Returns (λ _ _. Unit {0}) r

deref-Total : {A : Type 0} (p : Option A) (t : Trace) → (a : A) × (p ≡ some a) → Total (deref p t)
deref-Total p t (a, e) = rw e tt

module _ (env : Env) (lib : Containers) where
  command_output-Sourced :
      (command : CStr) (t : Trace)
      → Returns (Sourced env command) (command_output env lib command t)
  unfolding command_output
  command_output-Sourced command t =
      let start = popen command ∷ t in
      let (out, e) = read_all_total lib 62 (env.contents start) in
      elim (Bool-cases (env.succeeds start)) [ inl i ↦ rw (i, e) tt | inr i ↦ rw i (t, refl, i) ]

  read_both-Total :
      (name version : Option (List ℕ)) (t : Trace) → Total (read_both env lib name version t)
  unfolding read_both
  read_both-Total none version t = tt
  read_both-Total (some name) none t = tt
  read_both-Total (some name) (some version) t =
      let (first, e) = read_trimmed_total lib [] name in
      let (both, i) = read_trimmed_total lib (lib.ds_put_char first 32) version in rw (e, i) tt

  dmi_version-Total : (t : Trace) → Total (dmi_version env lib t)
  unfolding dmi_version open_contents
  dmi_version-Total t =
      Returns-bind (λ _ _. Unit {0}) _ (read_both env lib _ _) _ _ (read_both-Total _ _ _)
        (λ _ _ _. tt)

  model_version-Total : (t : Trace) → Total (model_version env lib t)
  unfolding model_version open_contents read_model
  model_version-Total t = elim (Bool-cases (env.succeeds (open_file sys_model_path ∷ t))) [
    | inl e ↦
        let (out, i) = read_trimmed_total lib [] (env.contents (open_file sys_model_path ∷ t)) in
        rw (e, i) tt
    | inr e ↦ rw e tt
  ]

  uname_version-Sourced :
      (t : Trace) → Returns (Sourced env (text "uname -m")) (uname_version env lib t)
  unfolding uname_version
  uname_version-Sourced t =
      Returns-bind (Sourced env (text "uname -m")) _ (command_output env lib (text "uname -m")) _ t
        (command_output-Sourced (text "uname -m") t) kept
    where
      kept :
          (r : Option CStr) (u : Trace)
          → Sourced env (text "uname -m") r u
          → Sourced env
              (text "uname -m")
              (elim r [ none ↦ none | some output ↦ some (trim_line_crlf output) ])
              u
      kept none u h = h
      kept (some output) u h = tt

  both_readable-Total : (t : Trace) → Total (both_readable env lib t)
  unfolding both_readable
  both_readable-Total t = elim (Bool-cases (env.succeeds (access product_name_path ∷ t))) [
    | inl e ↦ rw e tt
    | inr e ↦ rw e tt
  ]

  -- A source that may be absent.
  if_Total :
      (b : Bool) (m : M (Option CStr)) (t : Trace)
      → ((u : Trace) → Total (m u))
      → Total ((if b then m else pure none) t)
  if_Total true m t h = h t
  if_Total false m t h = tt

  or_else-Sourced :
      (command : CStr) (hw_version : Option CStr) (next : M (Option CStr)) (t : Trace)
      → ((u : Trace) → Returns (Sourced env command) (next u))
      → Returns (Sourced env command) (or_else env lib hw_version next t)
  unfolding or_else
  or_else-Sourced command (some hw_version) next t h = tt
  or_else-Sourced command none next t h = h t

  -- On every path, whatever the files and commands give, `getHardwareVersion` returns; it gives
  -- NULL only where its last resort, `uname -m`, cannot be started.
  pub get_hardware_version-Sourced :
      (t : Trace) → Returns (Sourced env (text "uname -m")) (get_hardware_version env lib t)
  unfolding get_hardware_version
  get_hardware_version-Sourced t =
      Returns-bind (λ _ _. Unit {0}) (Sourced env (text "uname -m")) (both_readable env lib) _ t
        (both_readable-Total t)
        λ dmi u _.
          Returns-bind (λ _ _. Unit {0}) (Sourced env (text "uname -m"))
            (if dmi then dmi_version env lib else pure none) _ u
            (if_Total dmi _ u dmi_version-Total)
            λ hw v _. or_else-Sourced (text "uname -m") hw _ v λ w.
              Returns-bind (λ _ _. Unit {0}) (Sourced env (text "uname -m"))
                (if env.succeeds (access sys_model_path ∷ w)
                  then model_version env lib
                  else pure none)
                _ (access sys_model_path ∷ w) (if_Total _ _ _ model_version-Total)
                λ hw' x _.
                  or_else-Sourced (text "uname -m") hw' (uname_version env lib) x
                    uname_version-Sourced

  -- What a command prints when it is started after `t`; none where it cannot be.
  abbrev output_at : CStr → Trace → Option CStr
  output_at command t =
      let start = popen command ∷ t in
      if env.succeeds start then read_all lib buffer_len (env.contents start) else none

  command_output-output_at :
      (command : CStr) (t : Trace)
      → Returns (λ out _. out ≡ output_at command t) (command_output env lib command t)
  unfolding command_output
  command_output-output_at command t =
      let start = popen command ∷ t in
      let (out, e) = read_all_total lib 62 (env.contents start) in
      elim (Bool-cases (env.succeeds start)) [ inl i ↦ rw (i, e) refl | inr i ↦ rw i refl ]

  -- The id that the daemon gives of the chassis when it is asked after `t`.
  abbrev pub chassis_id_at : Xml → Trace → Option CStr
  chassis_id_at xml t = elim (output_at (text "lldpcli -f xml show chassis summary") t) [
    | none ↦ none
    | some res ↦ find_chassis_id xml (xml.parse_doc res)
  ]

  pub get_chassis_id-chassis_id_at :
      (xml : Xml) (t : Trace)
      → Returns (λ id _. id ≡ chassis_id_at xml t) (get_chassis_id env lib xml t)
  unfolding get_chassis_id
  get_chassis_id-chassis_id_at xml t =
      let command = text "lldpcli -f xml show chassis summary" in
      Returns-bind (λ out _. out ≡ output_at command t) _ (command_output env lib command) _ t
        (command_output-output_at command t)
        (λ out u e.
          ap
            (λ (o : Option CStr). elim o as (λ _. Option CStr) [
              | none ↦ none
              | some res ↦ find_chassis_id xml (xml.parse_doc res)
            ])
            e)

  -- The other two return as well.
  pub get_software_version-Total : (t : Trace) → Total (get_software_version env lib t)
  unfolding get_software_version
  get_software_version-Total t =
      Returns-bind (Sourced env (text "lsb_release -d")) _
        (command_output env lib (text "lsb_release -d")) _ t
        (command_output-Sourced (text "lsb_release -d") t) (λ _ _ _. tt)

  pub get_chassis_id-Total : (xml : Xml) (t : Trace) → Total (get_chassis_id env lib xml t)
  unfolding get_chassis_id
  get_chassis_id-Total xml t =
      let command = text "lldpcli -f xml show chassis summary" in
      Returns-bind (Sourced env command) _ (command_output env lib command) _ t
        (command_output-Sourced command t) (λ _ _ _. tt)

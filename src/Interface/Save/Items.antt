-- ===== src/Interface/Save/Items.antt =====
-- interface.c, save_interface_running and save_interface_operational: the items with their values.
use tsn.Base.{
  Bool-cases, inl, inr, List, [], ◌∷◌, ◌++◌, append_assoc, append-nil, ◌≡◌, refl, sym, ◌∙◌, CStr,
  text, some,
}
use tsn.Runtime.{
  Env, Trace, Val, str, u64, i32, identityref, enumeration, sr_apply_changes, sr_set_item,
}
use tsn.Runtime.Laws.{Returns, Returns-mono}
use tsn.Runtime.Records.{sets, set_all}
use tsn.Interface.{Interface}
use tsn.Interface.Save.{
  interface_path, apply_or_discard, save_interface_running, save_interface_operational,
}

pub apply_or_discard-sets :
    (env : Env) (t : Trace) → Returns (λ _ u. sets u ≡ sets t) (apply_or_discard env t)
unfolding apply_or_discard
apply_or_discard-sets env t = elim (Bool-cases (env.succeeds (sr_apply_changes ∷ t))) [
  | inl e ↦ rw e refl
  | inr e ↦ rw e refl
]

sets-set_all : (items : List (CStr × Val)) (t : Trace) → sets (set_all items t) ≡ sets t ++ items
sets-set_all [] t = sym (append-nil (sets t))
sets-set_all ((path, val) ∷ items) t =
    sets-set_all items (sr_set_item path val ∷ t) ∙ append_assoc (sets t) ((path, val) ∷ []) items

-- What is set for an interface in the running datastore, and in the operational one.
abbrev pub running_items : Interface → List (CStr × Val)
running_items intf =
    (interface_path intf.name "type", identityref (text "iana-if-type:ethernetCsmacd")) ∷ []

abbrev pub operational_items : Interface → List (CStr × Val)
operational_items intf =
    (interface_path intf.name "admin-status", enumeration (text "up"))
    ∷ (interface_path intf.name "phys-address", str (some intf.hw_addr))
    ∷ (interface_path intf.name "if-index", i32 intf.index)
    ∷ (interface_path intf.name "speed", u64 intf.speed)
    ∷ []

module _ (env : Env) (intf : Interface) (t : Trace) where
  pub save_interface_running-sets :
      Returns (λ _ u. sets u ≡ sets t ++ running_items intf) (save_interface_running env intf t)
  unfolding save_interface_running
  save_interface_running-sets =
      Returns-mono _ _ (apply_or_discard env (set_all (running_items intf) t))
        (λ _ v k. k ∙ sets-set_all (running_items intf) t)
        (apply_or_discard-sets env (set_all (running_items intf) t))

  pub save_interface_operational-sets :
      Returns
        (λ _ u. sets u ≡ sets t ++ operational_items intf)
        (save_interface_operational env intf t)
  unfolding save_interface_operational
  save_interface_operational-sets =
      Returns-mono _ _ (apply_or_discard env (set_all (operational_items intf) t))
        (λ _ v k. k ∙ sets-set_all (operational_items intf) t)
        (apply_or_discard-sets env (set_all (operational_items intf) t))

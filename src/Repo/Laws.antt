-- ===== src/Repo/Laws.antt =====
-- repo.c: what clear_sysrepo leaves in a session.
use tsn.Base.{◌≡◌, Cases, Cases_intro, List, [], ◌∷◌, text}
use tsn.Runtime.{Env, Trace, sr_delete_item, sr_apply_changes}
use tsn.Runtime.Laws.{Returns}
use tsn.Runtime.Session.{Edit, delete, Sysrepo, IsLawful, Accepts}
use tsn.Runtime.Session.Laws.{
  pending_at, Takes, Transacts, delete-Takes, apply-Transacts, apply_failed-Takes,
}
use tsn.Repo.{clear_sysrepo}

-- The edit that deletes all interfaces.
abbrev pub delete_interfaces : List Edit
delete_interfaces = delete (text "/ietf-interfaces:interfaces") ∷ []

module _ (sys : Sysrepo) (lawful : IsLawful sys) (env : Env) (accepts : Accepts env)
    (s : sys.State) where
  -- On a session that holds no edits, `clear_sysrepo` returns. Where the apply succeeds, the
  -- deletion of all interfaces is published and no edit is held; where it fails, nothing is
  -- committed and the deletion is held still.
  clear_sysrepo-Transacts :
      (t : Trace)
      → pending_at sys env s t ≡ []
      → Returns
          (λ _ u.
            Cases
              (env.succeeds
                (sr_apply_changes ∷ sr_delete_item (text "/ietf-interfaces:interfaces") ∷ t))
              (Transacts sys env s (delete_interfaces ∷ []) t u)
              (Takes sys env s delete_interfaces t u))
          (clear_sysrepo t)
  unfolding clear_sysrepo
  clear_sysrepo-Transacts t h =
      let deleted = sr_delete_item (text "/ietf-interfaces:interfaces") ∷ t in
      let taken = delete-Takes sys lawful env accepts s (text "/ietf-interfaces:interfaces") t in
      Cases_intro (env.succeeds (sr_apply_changes ∷ deleted))
        (apply-Transacts sys lawful env accepts s delete_interfaces t deleted h taken)
        (apply_failed-Takes sys lawful env accepts s delete_interfaces t deleted taken)

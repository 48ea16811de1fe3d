-- ===== src/Tests/Session.antt =====
-- The theorems on sessions of sysrepo at concrete inputs.
use tsn.Base.{◌≡◌, refl, Bool, true, false, List, [], ◌∷◌, ◌++◌, CStr, map}
use tsn.Runtime.{
  Env, Trace, Call, Val, sr_set_item, sr_delete_item, sr_apply_changes, sr_discard_changes,
}
use tsn.Runtime.Laws.{Returns}
use tsn.Runtime.Session.{Edit, set_to, delete, Sysrepo, IsLawful, Accepts}
use tsn.Runtime.Session.Laws.{edits_of, Takes, Transacts}
use tsn.Interface.Save.{save_ips}
use tsn.Interface.Ips.{fetch}
use tsn.Interface.Save.Addresses.{names_items}
use tsn.Interface.Save.Transactions.{save_ips-Takes}
use tsn.Bridge.Save.{save_bridges}
use tsn.Bridge.Save.Transactions.{delete_bridges, bridge_edits, save_bridges-Transacts}
use tsn.Tests.World.{world}
use tsn.Tests.Interface.{one_ip}
use tsn.Tests.Bridge.{one_bridge}

-- What was committed, and what the session holds.
abbrev pub Held : Type 0
Held = List Edit × List Edit

abbrev pub after_call : Call → Bool → Held → Held
after_call (sr_set_item p v) true (c, h) = (c, h ++ (set_to p v ∷ []))
after_call (sr_delete_item p) true (c, h) = (c, h ++ (delete p ∷ []))
after_call sr_apply_changes true (c, h) = (c ++ h, [])
after_call sr_discard_changes ok (c, h) = (c, [])
after_call _ _ s = s

abbrev pub two_lists : Sysrepo
two_lists = record { State = Held; after = after_call; committed = λ s. s.0; pending = λ s. s.1 }

committed-set_item :
    (p : CStr) (v : Val) (ok : Bool) (s : Held) → (after_call (sr_set_item p v) ok s).0 ≡ s.0
committed-set_item p v true s = refl
committed-set_item p v false s = refl

committed-delete_item :
    (p : CStr) (ok : Bool) (s : Held) → (after_call (sr_delete_item p) ok s).0 ≡ s.0
committed-delete_item p true s = refl
committed-delete_item p false s = refl

two_lists-IsLawful : IsLawful two_lists
two_lists-IsLawful = record {
  pending-set = λ p v s. refl;
  committed-set = committed-set_item;
  pending-delete = λ p s. refl;
  committed-delete = committed-delete_item;
  pending-apply = λ s. refl;
  committed-apply = λ s. refl;
  pending-apply_failed = λ s. refl;
  committed-apply_failed = λ s. refl;
  pending-discard = λ ok s. refl;
  committed-discard = λ ok s. refl;
}

-- Every apply fails, and nothing else does.
abbrev unless_apply : Trace → Bool
unless_apply (sr_apply_changes ∷ t) = false
unless_apply _ = true

abbrev applies_fail : Env
applies_fail = record world { succeeds = unless_apply }

applies_fail-Accepts : Accepts applies_fail
applies_fail-Accepts = ((λ t p v. refl), (λ t p. refl))

save_bridges-Transacts_example :
    Returns
      (λ _ u.
        Transacts two_lists applies_fail
          ([], [])
          (delete_bridges ∷ map bridge_edits one_bridge)
          []
          u)
      (save_bridges applies_fail one_bridge [])
save_bridges-Transacts_example =
    save_bridges-Transacts two_lists two_lists-IsLawful applies_fail applies_fail-Accepts ([], [])
      one_bridge [] refl

save_ips-Takes_example :
    Returns
      (λ _ u.
        Takes two_lists applies_fail
          ([], [])
          (edits_of (names_items one_ip.store one_ip.names))
          []
          u)
      (save_ips one_ip [])
unfolding fetch
save_ips-Takes_example =
    save_ips-Takes two_lists two_lists-IsLawful applies_fail applies_fail-Accepts ([], [])
      (λ t. refl) one_ip [] (tt, tt)

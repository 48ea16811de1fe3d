-- ===== src/Runtime/Session.antt =====
-- A session of sysrepo, by what its documentation promises of the calls that the program makes.
pub mod Laws
use tsn.Base.{◌≡◌, Bool, true, false, List, [], ◌∷◌, ◌++◌, CStr}
use tsn.Runtime.{
  Env, Trace, Call, Val, sr_set_item, sr_delete_item, sr_apply_changes, sr_discard_changes,
}

-- A change that a session asks for.
pub data Edit : Type 0 where
  set_to : CStr → Val → Edit
  delete : CStr → Edit

-- A state of sysrepo, what a call makes of it, with whether the call succeeded, and two views: the
-- edits applied so far, and those that the session holds.
pub record Sysrepo : Type 1 where
  pub State : Type 0
  pub after : Call → Bool → State → State
  pub committed : State → List Edit
  pub pending : State → List Edit

-- The documented behaviour. An edit is held until changes are applied, all at once, or discarded;
-- a failure to apply leaves the edits in the session.
pub record IsLawful (sys : Sysrepo) : Type 0 where
  pub pending-set :
      (p : CStr) (v : Val) (s : sys.State)
      → sys.pending (sys.after (sr_set_item p v) true s) ≡ sys.pending s ++ (set_to p v ∷ [])
  pub committed-set :
      (p : CStr) (v : Val) (ok : Bool) (s : sys.State)
      → sys.committed (sys.after (sr_set_item p v) ok s) ≡ sys.committed s
  pub pending-delete :
      (p : CStr) (s : sys.State)
      → sys.pending (sys.after (sr_delete_item p) true s) ≡ sys.pending s ++ (delete p ∷ [])
  pub committed-delete :
      (p : CStr) (ok : Bool) (s : sys.State)
      → sys.committed (sys.after (sr_delete_item p) ok s) ≡ sys.committed s
  pub pending-apply : (s : sys.State) → sys.pending (sys.after sr_apply_changes true s) ≡ []
  pub committed-apply :
      (s : sys.State)
      → sys.committed (sys.after sr_apply_changes true s) ≡ sys.committed s ++ sys.pending s
  pub pending-apply_failed :
      (s : sys.State) → sys.pending (sys.after sr_apply_changes false s) ≡ sys.pending s
  pub committed-apply_failed :
      (s : sys.State) → sys.committed (sys.after sr_apply_changes false s) ≡ sys.committed s
  pub pending-discard :
      (ok : Bool) (s : sys.State) → sys.pending (sys.after sr_discard_changes ok s) ≡ []
  pub committed-discard :
      (ok : Bool) (s : sys.State)
      → sys.committed (sys.after sr_discard_changes ok s) ≡ sys.committed s

-- The state after a run that began in `s`.
abbrev pub state_after : (sys : Sysrepo) → Env → sys.State → Trace → sys.State
state_after sys env s [] = s
state_after sys env s (c ∷ t) = sys.after c (env.succeeds (c ∷ t)) (state_after sys env s t)

-- No edit is refused by itself: each fits the schema.
abbrev pub Accepts : Env → Type 0
Accepts env =
    ((t : Trace) (p : CStr) (v : Val) → env.succeeds (sr_set_item p v ∷ t) ≡ true)
    × ((t : Trace) (p : CStr) → env.succeeds (sr_delete_item p ∷ t) ≡ true)

-- The abstract program: transactions, each of which is committed as a whole or dropped as a whole,
-- lead from what was committed before to what is afterwards.
pub data Publishes : List (List Edit) → List Edit → List Edit → Type 0 where
  end : {c : List Edit} → Publishes [] c c
  commit :
      {edits c d : List Edit} {rest : List (List Edit)}
      → Publishes rest (c ++ edits) d
      → Publishes (edits ∷ rest) c d
  drop :
      {edits c d : List Edit} {rest : List (List Edit)}
      → Publishes rest c d
      → Publishes (edits ∷ rest) c d

-- ===== src/Runtime/Session/Laws.antt =====
-- Reasoning about sessions: edits add up, an apply ends a transaction, and transactions follow one
-- another.
use tsn.Base.{
  concat_map, subst, ◌≡◌, refl, sym, ap, ◌∙◌, true, false, List, [], ◌∷◌, ◌++◌, append_assoc,
  append-nil, map, CStr,
}
use tsn.Runtime.{
  M, Env, Trace, Val, sr_set_item, sr_delete_item, sr_apply_changes, sr_discard_changes, for_each,
}
use tsn.Runtime.Laws.{Returns, Returns-bind, Returns-mono}
use tsn.Runtime.Records.{set_all}
use tsn.Runtime.Session.{
  Edit, set_to, delete, Sysrepo, IsLawful, state_after, Accepts, Publishes, end, commit, drop,
}

-- The edits that set some items.
abbrev pub edits_of : List (CStr × Val) → List Edit
edits_of [] = []
edits_of ((p, v) ∷ items) = set_to p v ∷ edits_of items

pub edits_of-append : (xs ys : List (CStr × Val)) → edits_of (xs ++ ys) ≡ edits_of xs ++ edits_of ys
edits_of-append [] ys = refl
edits_of-append ((p, v) ∷ xs) ys = ap (λ l. set_to p v ∷ l) (edits_of-append xs ys)

pub Publishes-append :
    {xs ys : List (List Edit)} {c d e : List Edit}
    → Publishes xs c d
    → Publishes ys d e
    → Publishes (xs ++ ys) c e
Publishes-append end q = q
Publishes-append (commit p) q = commit (Publishes-append p q)
Publishes-append (drop p) q = drop (Publishes-append p q)

module _ (sys : Sysrepo) (env : Env) (s : sys.State) where
  abbrev pub committed_at : Trace → List Edit
  committed_at t = sys.committed (state_after sys env s t)

  abbrev pub pending_at : Trace → List Edit
  pending_at t = sys.pending (state_after sys env s t)

  -- From `t` to `u` the session takes some edits up, and nothing is committed.
  abbrev pub Takes : List Edit → Trace → Trace → Type 0
  Takes edits t u = (committed_at u ≡ committed_at t) × (pending_at u ≡ pending_at t ++ edits)

  -- From `t`, where nothing is pending, to `u`, the same, some transactions are published.
  abbrev pub Transacts : List (List Edit) → Trace → Trace → Type 0
  Transacts edits t u = (pending_at u ≡ []) × Publishes edits (committed_at t) (committed_at u)

module _ (sys : Sysrepo) (lawful : IsLawful sys) (env : Env) (accepts : Accepts env)
    (s : sys.State) where
  pub start-Takes : (t : Trace) → Takes sys env s [] t t
  start-Takes t = (refl, sym (append-nil _))

  pub Takes-trans :
      (xs ys : List Edit) (t u v : Trace)
      → Takes sys env s xs t u
      → Takes sys env s ys u v
      → Takes sys env s (xs ++ ys) t v
  Takes-trans xs ys t u v (c, p) (d, q) =
      (d ∙ c, q ∙ ap (λ l. l ++ ys) p ∙ append_assoc (pending_at sys env s t) xs ys)

  pub Takes-items :
      (xs ys : List (CStr × Val)) (t u v : Trace)
      → Takes sys env s (edits_of xs) t u
      → Takes sys env s (edits_of ys) u v
      → Takes sys env s (edits_of (xs ++ ys)) t v
  Takes-items xs ys t u v k l =
      rw (edits_of-append xs ys) (Takes-trans (edits_of xs) (edits_of ys) t u v k l)

  pub set-Takes :
      (p : CStr) (v : Val) (t : Trace) → Takes sys env s (set_to p v ∷ []) t (sr_set_item p v ∷ t)
  set-Takes p v t = (
    lawful.committed-set p v _ _,
    ap (λ ok. sys.pending (sys.after (sr_set_item p v) ok (state_after sys env s t)))
          (accepts.0 t p v)
        ∙ lawful.pending-set p v (state_after sys env s t),
  )

  pub set_all-Takes :
      (items : List (CStr × Val)) (t : Trace) → Takes sys env s (edits_of items) t (set_all items t)
  set_all-Takes [] t = start-Takes t
  set_all-Takes ((p, v) ∷ items) t =
      Takes-trans (set_to p v ∷ []) (edits_of items) t (sr_set_item p v ∷ t)
        (set_all items (sr_set_item p v ∷ t)) (set-Takes p v t)
        (set_all-Takes items (sr_set_item p v ∷ t))

  -- An apply that fails leaves the edits where they are.
  pub apply_failed-Takes :
      (edits : List Edit) (t u : Trace)
      → Takes sys env s edits t u
      → env.succeeds (sr_apply_changes ∷ u) ≡ false
      → Takes sys env s edits t (sr_apply_changes ∷ u)
  apply_failed-Takes edits t u (c, p) e =
      let now = state_after sys env s u in
      (
        ap (λ ok. sys.committed (sys.after sr_apply_changes ok now)) e
            ∙ lawful.committed-apply_failed now
            ∙ c,
        ap (λ ok. sys.pending (sys.after sr_apply_changes ok now)) e
            ∙ lawful.pending-apply_failed now
            ∙ p,
      )

  pub delete-Takes :
      (p : CStr) (t : Trace) → Takes sys env s (delete p ∷ []) t (sr_delete_item p ∷ t)
  delete-Takes p t = (
    lawful.committed-delete p _ _,
    ap (λ ok. sys.pending (sys.after (sr_delete_item p) ok (state_after sys env s t)))
          (accepts.1 t p)
        ∙ lawful.pending-delete p (state_after sys env s t),
  )

  -- What was taken up since nothing was pending is one transaction: committed by an apply,
  pub apply-Transacts :
      (edits : List Edit) (t u : Trace)
      → pending_at sys env s t ≡ []
      → Takes sys env s edits t u
      → env.succeeds (sr_apply_changes ∷ u) ≡ true
      → Transacts sys env s (edits ∷ []) t (sr_apply_changes ∷ u)
  apply-Transacts edits t u h (c, p) e =
      let now = state_after sys env s u in
      (
        ap (λ ok. sys.pending (sys.after sr_apply_changes ok now)) e ∙ lawful.pending-apply now,
        subst (λ d. Publishes (edits ∷ []) (committed_at sys env s t) d)
            (sym (
              ap (λ ok. sys.committed (sys.after sr_apply_changes ok now)) e
              ∙ lawful.committed-apply now
              ∙ ap (λ l. l ++ sys.pending now) c
              ∙ ap (λ l. committed_at sys env s t ++ l) (p ∙ ap (λ l. l ++ edits) h)))
            (commit end),
      )

  -- or dropped by a discard after an apply that failed.
  pub discard-Transacts :
      (edits : List Edit) (t u : Trace)
      → Takes sys env s edits t u
      → env.succeeds (sr_apply_changes ∷ u) ≡ false
      → Transacts sys env s (edits ∷ []) t (sr_discard_changes ∷ sr_apply_changes ∷ u)
  discard-Transacts edits t u (c, p) e =
      let now = state_after sys env s u in
      (
        lawful.pending-discard _ _,
        subst (λ d. Publishes (edits ∷ []) (committed_at sys env s t) d)
            (sym (
              lawful.committed-discard _ _
              ∙ ap (λ ok. sys.committed (sys.after sr_apply_changes ok now)) e
              ∙ lawful.committed-apply_failed now
              ∙ c))
            (drop end),
      )

  -- A loop of such rounds.
  pub for_each-Transacts :
      {A : Type 0} (edits : A → List Edit) (body : A → M (Unit {0}))
      → ((x : A) (t : Trace)
          → pending_at sys env s t ≡ []
          → Returns (λ _ u. Transacts sys env s (edits x ∷ []) t u) (body x t))
      → (xs : List A) (t : Trace) → pending_at sys env s t ≡ []
      → Returns (λ _ u. Transacts sys env s (map edits xs) t u) (for_each xs body t)
  unfolding for_each
  for_each-Transacts edits body step [] t h = (h, end)
  for_each-Transacts edits body step (x ∷ xs) t h =
      Returns-bind (λ _ u. Transacts sys env s (edits x ∷ []) t u)
        (λ _ u. Transacts sys env s (map edits (x ∷ xs)) t u) (body x) (λ _. for_each xs body) t
        (step x t h)
        (λ _ u (p, q).
          Returns-mono (λ _ v. Transacts sys env s (map edits xs) u v)
            (λ _ v. Transacts sys env s (map edits (x ∷ xs)) t v) (for_each xs body u)
            (λ _ v (k, l). (k, Publishes-append q l)) (for_each-Transacts edits body step xs u p))

  -- A loop whose rounds only take edits up.
  pub for_each-Takes :
      {A : Type 0} (items : A → List (CStr × Val)) (body : A → M (Unit {0}))
      → ((x : A) (t : Trace) → Returns (λ _ u. Takes sys env s (edits_of (items x)) t u) (body x t))
      → (xs : List A) (t : Trace)
      → Returns (λ _ u. Takes sys env s (edits_of (concat_map items xs)) t u) (for_each xs body t)
  unfolding for_each
  for_each-Takes items body step [] t = start-Takes t
  for_each-Takes items body step (x ∷ xs) t =
      Returns-bind (λ _ u. Takes sys env s (edits_of (items x)) t u)
        (λ _ u. Takes sys env s (edits_of (concat_map items (x ∷ xs))) t u) (body x)
        (λ _. for_each xs body) t (step x t)
        (λ _ u k.
          Returns-mono (λ _ v. Takes sys env s (edits_of (concat_map items xs)) u v)
            (λ _ v. Takes sys env s (edits_of (concat_map items (x ∷ xs))) t v) (for_each xs body u)
            (λ _ v l. Takes-items (items x) (concat_map items xs) t u v k l)
            (for_each-Takes items body step xs u))

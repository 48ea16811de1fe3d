-- ===== src/Runtime/Footprint.antt =====
-- The calls that a run may make, however it ends: one rule for each way to build a run.
use tsn.Base.{
  Bool, true, false, List, [], ◌∷◌, ◌++◌, append_assoc, ◌≡◌, refl, sym, ap, ◌∙◌, All, All-append,
}
use tsn.Runtime.Laws.{Returns, Returns-mono}
use tsn.Runtime.Always.{trace_of, IsOrder, Always, always_rules, Returns-Always}
use tsn.Runtime.{
  Trace, Call, M, time, lyd_new_tree, lyd_new_path, sr_acquire_context, sr_release_context,
}

-- From `t` to `u` only calls that `allowed` admits were made.
abbrev pub Grows : (Call → Bool) → Trace → Trace → Type 0
Grows allowed t u = (cs : List Call) × (u ≡ cs ++ t) × All (λ c. allowed c ≡ true) cs

abbrev pub Only : {A : Type 0} → (Call → Bool) → M A → Type 0
Only allowed m = Always (Grows allowed) m

Grows-trans :
    (allowed : Call → Bool) (t u v : Trace)
    → Grows allowed t u
    → Grows allowed u v
    → Grows allowed t v
Grows-trans allowed t u v (cs, e, h) (ds, f, k) = (
  ds ++ cs,
  f ∙ ap (λ l. ds ++ l) e ∙ sym (append_assoc ds cs t),
  All-append (λ c. allowed c ≡ true) ds cs k h,
)

pub Grows-IsOrder : (allowed : Call → Bool) → IsOrder (Grows allowed)
Grows-IsOrder allowed = record { stays = λ t. ([], refl, tt); trans = Grows-trans allowed }

pub Grows-call :
    (allowed : Call → Bool) (c : Call) → allowed c ≡ true → (t : Trace) → Grows allowed t (c ∷ t)
Grows-call allowed c h t = (c ∷ [], refl, (h, tt))

-- What the calls that were made leave as it is.
pub Grows-same :
    {B : Type 0} (of : Trace → B) (allowed : Call → Bool)
    → ((c : Call) (t : Trace) → allowed c ≡ true → of (c ∷ t) ≡ of t)
    → (t u : Trace) → Grows allowed t u
    → of u ≡ of t
Grows-same of allowed keep t u (cs, e, all) = ap of e ∙ go cs all
  where
    go : (cs : List Call) → All (λ c. allowed c ≡ true) cs → of (cs ++ t) ≡ of t
    go [] a = refl
    go (c ∷ cs) (h, a) = keep c (cs ++ t) h ∙ go cs a

-- What a run that returns has achieved, and what it has not touched.
pub Returns-Only :
    {A B : Type 0} (P : A → Trace → Type 0) (of : Trace → B) (allowed : Call → Bool) (m : M A)
    → ((c : Call) (t : Trace) → allowed c ≡ true → of (c ∷ t) ≡ of t)
    → Only allowed m
    → (t : Trace) → Returns P (m t)
    → Returns (λ a u. P a u × (of u ≡ of t)) (m t)
Returns-Only P of allowed m keep only t h =
    Returns-mono (λ a u. P a u × Grows allowed t u) _ (m t)
      (λ a u (p, g). (p, Grows-same of allowed keep t u g)) (Returns-Always P m only t h)

pub ruleset only_rules = (always_rules, Grows-IsOrder, Grows-call)

-- The calls that make nodes of a tree for sysrepo.
abbrev pub makes_nodes : Call → Bool
makes_nodes time = true
makes_nodes (lyd_new_tree path value) = true
makes_nodes (lyd_new_path path value) = true
makes_nodes _ = false

-- The calls that take and release a context of sysrepo.
abbrev pub holds_context : Call → Bool
holds_context sr_acquire_context = true
holds_context sr_release_context = true
holds_context _ = false

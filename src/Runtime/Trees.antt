-- ===== src/Runtime/Trees.antt =====
-- Loops that make the nodes of a tree.
use tsn.Base.{
  ◌≡◌, sym, ap, ◌∙◌, arith, Bool, Option, List, [], ◌∷◌, ◌++◌, All, CStr, append_assoc, append-nil,
}
use tsn.Runtime.{M, Env, Trace, fold_each}
use tsn.Runtime.Laws.{Returns, Returns-bind, Returns-mono}
use tsn.Runtime.Records.{nodes, context, Keeps}

-- A node of the tree: whether it begins the tree, its path and its value.
abbrev pub Node : Type 0
Node = Bool × CStr × Option CStr

-- From `t` to `u` these nodes are made, and no context is kept.
abbrev pub Made : Env → List Node → Trace → Trace → Type 0
Made env made t u = (nodes u ≡ nodes t ++ made) × Keeps env context 0 t u

Made-trans :
    (env : Env) (xs ys : List Node) (t u v : Trace)
    → Made env xs t u
    → Made env ys u v
    → Made env (xs ++ ys) t v
Made-trans env xs ys t u v (e, k) (f, l) =
    (f ∙ ap (λ n. n ++ ys) e ∙ append_assoc (nodes t) xs ys, omega (arith, k, l))

-- From `t` to `u` a loop went from the state `s` to `s'` over the item `x`: what it made then comes
-- before what the rest will make.
abbrev pub Extends :
    {A S : Type 0} → Env → (S → List A → List Node → Type 0) → A → S → Trace → S → Trace → Type 0
Extends env R x s t s' u =
    (made : List Node) × ((next : List _) (rest : List Node)
      → R s' next rest
      → R s (x ∷ next) (made ++ rest))
    × Made env made t u

-- A loop that makes nodes: `R s xs out` tells what the items `xs` give from the state `s` on.
pub fold_each-Made :
    {A S : Type 0} (env : Env) (R : S → List A → List Node → Type 0) (P : A → Type 0)
    (body : S → A → M S)
    → ((s : S) → R s [] [])
    → ((x : A) (s : S) (t : Trace) → P x → Returns (Extends env R x s t) (body s x t))
    → (xs : List A) (s : S) (t : Trace) → All P xs
    → Returns (λ _ u. (made : List Node) × R s xs made × Made env made t u) (fold_each xs s body t)
unfolding fold_each
fold_each-Made env R P body stop step [] s t ps =
    ([], stop s, (sym (append-nil (nodes t)), omega arith))
fold_each-Made env R P body stop step (x ∷ xs) s t (p, ps) =
    Returns-bind (Extends env R x s t)
      (λ _ u. (made : List Node) × R s (x ∷ xs) made × Made env made t u) (body s x)
      (λ s'. fold_each xs s' body) t (step x s t p)
      (λ s' u (made, grow, k).
        Returns-mono (λ _ v. (rest : List Node) × R s' xs rest × Made env rest u v)
          (λ _ v. (out : List Node) × R s (x ∷ xs) out × Made env out t v) (fold_each xs s' body u)
          (λ _ v (rest, r, l). (made ++ rest, grow xs rest r, Made-trans env made rest t u v k l))
          (fold_each-Made env R P body stop step xs s' u ps))

pub units-All : {A : Type 0} (xs : List A) → All (λ _. Unit {0}) xs
units-All [] = tt
units-All (x ∷ xs) = (tt, units-All xs)

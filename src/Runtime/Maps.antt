-- ===== src/Runtime/Maps.antt =====
-- Loops that add nodes to a string map, whose order is the map's own.
use mathlib.Core.List.{Perm, perm_append_comm}
use mathlib.Core.List.Perm
use tsn.Base.{◌≡◌, refl, ◌∙◌, subst, List, [], ◌∷◌, ◌++◌, append_assoc, CStr}
use tsn.Runtime.{M, Trace, fold_each}
use tsn.Runtime.Records.{sets}
use tsn.Runtime.Laws.{Returns, Returns-bind, Returns-mono}

-- Over the item `x` a map went from `s` to `s'`: what was added comes before what the rest adds.
abbrev pub Adds :
    {A V : Type 0}
    → (List A → List (CStr × V) → Type 0)
    → A
    → List (CStr × V)
    → List (CStr × V)
    → Type 0
Adds R x s s' =
    (made : List _) × ((next : List _) (out : List _) → R next out → R (x ∷ next) (made ++ out))
    × Perm s' (made ++ s)

Perm-later :
    {X : Type 0} (made later s s' r : List X)
    → Perm s' (made ++ s)
    → Perm r (later ++ s')
    → Perm r ((made ++ later) ++ s)
Perm-later made later s s' r p q = Perm.trans q (
    Perm.trans (Perm.append_left later p) (
      subst (λ l. Perm l ((made ++ later) ++ s)) (append_assoc later made s)
        (Perm.append_right s (perm_append_comm later made))))

-- `R xs out` tells what the items `xs` add; no round sets an item.
pub fold_each-Adds :
    {A V : Type 0} (R : List A → List (CStr × V) → Type 0)
    (body : List (CStr × V) → A → M (List (CStr × V)))
    → R [] []
    → ((x : A) (s : List (CStr × V)) (t : Trace)
        → Returns (λ s' u. Adds R x s s' × (sets u ≡ sets t)) (body s x t))
    → (xs : List A) (s : List (CStr × V)) (t : Trace)
    → Returns
        (λ r u. (made : List (CStr × V)) × R xs made × Perm r (made ++ s) × (sets u ≡ sets t))
        (fold_each xs s body t)
unfolding fold_each
fold_each-Adds R body stop step [] s t = ([], stop, Perm.refl s, refl)
fold_each-Adds R body stop step (x ∷ xs) s t =
    Returns-bind (λ s' u. Adds R x s s' × (sets u ≡ sets t))
      (λ r v. (made : List (CStr × _)) × R (x ∷ xs) made × Perm r (made ++ s) × (sets v ≡ sets t))
      (body s x) (λ s'. fold_each xs s' body) t (step x s t)
      (λ s' u ((made, grow, p), e).
        Returns-mono
          (λ r v. (later : List (CStr × _)) × R xs later × Perm r (later ++ s') × (sets v ≡ sets u))
          (λ r v. (out : List (CStr × _)) × R (x ∷ xs) out × Perm r (out ++ s) × (sets v ≡ sets t))
          (fold_each xs s' body u)
          (λ r v (later, h, q, i).
            (made ++ later, grow xs later h, Perm-later made later s s' r p q, i ∙ e))
          (fold_each-Adds R body stop step xs s' u))

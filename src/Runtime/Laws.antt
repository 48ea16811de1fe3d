-- ===== src/Runtime/Laws.antt =====
-- Reasoning about runs: what a run that returns has achieved, and rules for the loops.
use tsn.Base.{
  CStr, map, map-append, ◌≡◌, refl, sym, ap, ◌∙◌, List, [], ◌∷◌, ◌++◌, append_assoc, append-nil,
  concat_map, All,
}
use tsn.Runtime.{Trace, Result, done, fault, exited, M, for_each, fold_each, Datastore, ◌>>=◌}
use tsn.Runtime.Records.{session_ds, written, Writes}

-- The run returns, with a result and a trace as `P` says.
abbrev pub Returns : {A : Type 0} → (A → Trace → Type 0) → Result A → Type 0
Returns P (done a t) = P a t
Returns P (fault t) = ⊥
Returns P (exited t) = ⊥

pub Returns-bind :
    {A B : Type 0} (P : A → Trace → Type 0) (Q : B → Trace → Type 0) (m : M A) (f : A → M B)
    (t : Trace)
    → Returns P (m t)
    → ((a : A) (u : Trace) → P a u → Returns Q (f a u))
    → Returns Q ((m >>= f) t)
Returns-bind P Q m f t h k = go (m t) h
  where
    go :
        (r : Result _)
        → Returns P r
        → Returns Q (elim r [ done a u ↦ f a u | fault u ↦ fault u | exited u ↦ exited u ])
    go (done a u) h = k a u h
    go (fault u) h = absurd h
    go (exited u) h = absurd h

-- The runs of a sequence, however it is put together.
pub bind_assoc :
    {A B C : Type 0} (m : M A) (f : A → M B) (g : B → M C) (t : Trace)
    → ((m >>= f) >>= g) t ≡ (m >>= λ a. f a >>= g) t
bind_assoc {A} {B} {C} m f g t = go (m t)
  where
    go :
        (r : Result A)
        → elim (elim r as (λ _. Result B) [
          | done a u ↦ f a u
          | fault u ↦ fault u
          | exited u ↦ exited u
        ])
            as (λ _. Result C) [ done b u ↦ g b u | fault u ↦ fault u | exited u ↦ exited u ]
          ≡ elim r as (λ _. Result C) [
            | done a u ↦ (f a >>= g) u
            | fault u ↦ fault u
            | exited u ↦ exited u
          ]
    go (done a u) = refl
    go (fault u) = refl
    go (exited u) = refl

pub Returns-mono :
    {A : Type 0} (P Q : A → Trace → Type 0) (r : Result A)
    → ((a : A) (u : Trace) → P a u → Q a u)
    → Returns P r
    → Returns Q r
Returns-mono P Q (done a u) k h = k a u h
Returns-mono P Q (fault u) k h = h
Returns-mono P Q (exited u) k h = h

-- A loop keeps what its body keeps.
pub for_each-Returns :
    {A : Type 0} (I : Trace → Type 0) (body : A → M (Unit {0}))
    → ((x : A) (t : Trace) → I t → Returns (λ _ u. I u) (body x t))
    → (xs : List A) (t : Trace) → I t
    → Returns (λ _ u. I u) (for_each xs body t)
unfolding for_each
for_each-Returns I body keep [] t h = h
for_each-Returns I body keep (x ∷ xs) t h =
    Returns-bind (λ _ u. I u) (λ _ u. I u) (body x) (λ _. for_each xs body) t (keep x t h)
      (λ a u k. for_each-Returns I body keep xs u k)

pub fold_each-Returns :
    {A S : Type 0} (I : S → Trace → Type 0) (body : S → A → M S)
    → ((x : A) (s : S) (t : Trace) → I s t → Returns I (body s x t))
    → (xs : List A) (s : S) (t : Trace) → I s t
    → Returns I (fold_each xs s body t)
unfolding fold_each
fold_each-Returns I body keep [] s t h = h
fold_each-Returns I body keep (x ∷ xs) s t h =
    Returns-bind I I (body s x) (λ s'. fold_each xs s' body) t (keep x s t h)
      (λ a u k. fold_each-Returns I body keep xs a u k)

-- A loop whose body adds `spec x` to a record of the run, in round `x`.
pub for_each_adds :
    {A B : Type 0} (of : Trace → List B) (spec : A → List B) (body : A → M (Unit {0}))
    → ((x : A) (t : Trace) → Returns (λ _ u. of u ≡ of t ++ spec x) (body x t))
    → (xs : List A) (t : Trace)
    → Returns (λ _ u. of u ≡ of t ++ concat_map spec xs) (for_each xs body t)
unfolding for_each
for_each_adds of spec body step [] t = sym (append-nil (of t))
for_each_adds of spec body step (x ∷ xs) t =
    Returns-bind (λ _ u. of u ≡ of t ++ spec x) (λ _ u. of u ≡ of t ++ concat_map spec (x ∷ xs))
      (body x) (λ _. for_each xs body) t (step x t)
      λ a u e.
        Returns-mono _ _ (for_each xs body u)
          (λ b v k. k ∙ ap (λ w. w ++ concat_map spec xs) e ∙ append_assoc (of t) (spec x) _)
          (for_each_adds of spec body step xs u)

-- A loop that adds to a record of the run what the items give by `R`.
pub for_each_gives :
    {A B : Type 0} (of : Trace → List B) (R : List A → List B → Type 0) (body : A → M (Unit {0}))
    → R [] []
    → ((x : A) (t : Trace)
        → Returns
            (λ _ u.
              (made : List B) × ((next : List A) (rest : List B)
                → R next rest
                → R (x ∷ next) (made ++ rest))
              × (of u ≡ of t ++ made))
            (body x t))
    → (xs : List A) (t : Trace)
    → Returns (λ _ u. (made : List B) × R xs made × (of u ≡ of t ++ made)) (for_each xs body t)
unfolding for_each
for_each_gives of R body stop step [] t = ([], stop, sym (append-nil (of t)))
for_each_gives of R body stop step (x ∷ xs) t =
    Returns-bind _ _ (body x) (λ _. for_each xs body) t (step x t)
      λ a u (made, grow, e).
        Returns-mono _ _ (for_each xs body u)
          (λ b v (rest, r, k). (
            made ++ rest,
            grow xs rest r,
            k ∙ ap (λ w. w ++ rest) e ∙ append_assoc (of t) made rest,
          ))
          (for_each_gives of R body stop step xs u)

-- A loop that carries a value, over items with a property.
pub fold_each-Returns_of :
    {A S : Type 0} (P : A → Type 0) (I : List A → S → Trace → Type 0) (body : S → A → M S)
    → ((x : A) (xs : List A) (s : S) (t : Trace)
        → P x
        → I (x ∷ xs) s t
        → Returns (I xs) (body s x t))
    → (xs : List A) (s : S) (t : Trace) → All P xs
    → I xs s t
    → Returns (I []) (fold_each xs s body t)
unfolding fold_each
fold_each-Returns_of P I body step [] s t ps h = h
fold_each-Returns_of P I body step (x ∷ xs) s t (p, ps) h =
    Returns-bind (I xs) (I []) (body s x) (λ s'. fold_each xs s' body) t (step x xs s t p h)
      (λ a u k. fold_each-Returns_of P I body step xs a u ps k)

pub Returns-both :
    {A : Type 0} (P Q : A → Trace → Type 0) (r : Result A)
    → Returns P r
    → Returns Q r
    → Returns (λ a u. P a u × Q a u) r
Returns-both P Q (done a u) h k = (h, k)
Returns-both P Q (fault u) h k = h
Returns-both P Q (exited u) h k = h

-- One run after another.
pub Writes-trans :
    (ds : Datastore) (ps qs : List CStr) (t u v : Trace)
    → Writes ds ps t u
    → Writes ds qs u v
    → Writes ds (ps ++ qs) t v
Writes-trans ds ps qs t u v (d, e) (f, g) = (
  f,
  g
      ∙ ap (λ w. w ++ map (λ p. (ds, p)) qs) e
      ∙ append_assoc (written t) _ _
      ∙ ap (λ w. written t ++ w) (sym (map-append (λ p. (ds, p)) ps qs)),
)

-- A loop whose rounds each set the items of some paths in one datastore.
pub for_each-Writes :
    {A : Type 0} (ds : Datastore) (paths : A → List CStr) (body : A → M (Unit {0}))
    → ((x : A) (t : Trace)
        → session_ds t ≡ ds
        → Returns (λ _ u. Writes ds (paths x) t u) (body x t))
    → (xs : List A) (t : Trace) → session_ds t ≡ ds
    → Returns (λ _ u. Writes ds (concat_map paths xs) t u) (for_each xs body t)
unfolding for_each
for_each-Writes ds paths body step [] t h = (h, sym (append-nil (written t)))
for_each-Writes ds paths body step (x ∷ xs) t h =
    Returns-bind (λ _ u. Writes ds (paths x) t u) (λ _ u. Writes ds (concat_map paths (x ∷ xs)) t u)
      (body x) (λ _. for_each xs body) t (step x t h)
      λ a u (d, e).
        Returns-mono (λ _ v. Writes ds (concat_map paths xs) u v)
          (λ _ v. Writes ds (concat_map paths (x ∷ xs)) t v) (for_each xs body u)
          (λ b v k. Writes-trans ds (paths x) (concat_map paths xs) t u v (d, e) k)
          (for_each-Writes ds paths body step xs u d)

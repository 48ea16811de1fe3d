-- ===== src/Runtime/Ends.antt =====
-- Runs that may also stop or end the program, and runs that begin with such a one.
use tsn.Base.{subst, ◌≡◌, sym, List, [], ◌∷◌}
use tsn.Runtime.{Trace, Result, done, fault, exited, M, fold_each, ◌>>=◌}
use tsn.Runtime.Laws.{Returns}

-- The run, if it returns, does so as `P` says.
abbrev pub IfReturns : {A : Type 0} → (A → Trace → Type 0) → Result A → Type 0
IfReturns P (done a t) = P a t
IfReturns P (fault t) = Unit
IfReturns P (exited t) = Unit

pub IfReturns-bind :
    {A B : Type 0} (P : A → Trace → Type 0) (Q : B → Trace → Type 0) (m : M A) (f : A → M B)
    (t : Trace)
    → IfReturns P (m t)
    → ((a : A) (u : Trace) → P a u → IfReturns Q (f a u))
    → IfReturns Q ((m >>= f) t)
IfReturns-bind P Q m f t h k = go (m t) h
  where
    go :
        (r : Result _)
        → IfReturns P r
        → IfReturns Q (elim r [ done a u ↦ f a u | fault u ↦ fault u | exited u ↦ exited u ])
    go (done a u) h = k a u h
    go (fault u) h = tt
    go (exited u) h = tt

pub fold_each-IfReturns :
    {A S : Type 0} (I : S → Trace → Type 0) (body : S → A → M S)
    → ((x : A) (s : S) (t : Trace) → I s t → IfReturns I (body s x t))
    → (xs : List A) (s : S) (t : Trace) → I s t
    → IfReturns I (fold_each xs s body t)
unfolding fold_each
fold_each-IfReturns I body keep [] s t h = h
fold_each-IfReturns I body keep (x ∷ xs) s t h =
    IfReturns-bind I I (body s x) (λ s'. fold_each xs s' body) t (keep x s t h)
      (λ a u k. fold_each-IfReturns I body keep xs a u k)

-- A run that returns, and what holds if it does.
pub Returns-if :
    {A : Type 0} (P Q : A → Trace → Type 0) (r : Result A)
    → Returns P r
    → IfReturns Q r
    → Returns (λ a u. P a u × Q a u) r
Returns-if P Q (done a u) h k = (h, k)
Returns-if P Q (fault u) h k = h
Returns-if P Q (exited u) h k = h

-- A run that begins with one whose result is known.
pub Returns-done :
    {A B : Type 0} (Q : B → Trace → Type 0) (m : M A) (f : A → M B) (t : Trace) (a : A) (u : Trace)
    → m t ≡ done a u
    → Returns Q (f a u)
    → Returns Q ((m >>= f) t)
Returns-done Q m f t a u e h =
    subst (λ r. Returns Q (elim r [ done b v ↦ f b v | fault v ↦ fault v | exited v ↦ exited v ]))
      (sym e) h

-- The run returns as `P` says, or ends the program as `E` says.
abbrev pub Ends : {A : Type 0} → (A → Trace → Type 0) → (Trace → Type 0) → Result A → Type 0
Ends P E (done a t) = P a t
Ends P E (fault t) = ⊥
Ends P E (exited t) = E t

pub Ends-bind :
    {A B : Type 0} (P : A → Trace → Type 0) (Q : B → Trace → Type 0) (E : Trace → Type 0) (m : M A)
    (f : A → M B) (t : Trace)
    → Ends P E (m t)
    → ((a : A) (u : Trace) → P a u → Ends Q E (f a u))
    → Ends Q E ((m >>= f) t)
Ends-bind P Q E m f t h k = go (m t) h
  where
    go :
        (r : Result _)
        → Ends P E r
        → Ends Q E (elim r [ done a u ↦ f a u | fault u ↦ fault u | exited u ↦ exited u ])
    go (done a u) h = k a u h
    go (fault u) h = absurd h
    go (exited u) h = h

pub Returns-Ends :
    {A : Type 0} (P : A → Trace → Type 0) (E : Trace → Type 0) (r : Result A)
    → Returns P r
    → Ends P E r
Returns-Ends P E (done a t) h = h
Returns-Ends P E (fault t) h = h
Returns-Ends P E (exited t) h = absurd h

-- A run that returns, and then another.
pub Returns-Ends-bind :
    {A B : Type 0} (P : A → Trace → Type 0) (Q : B → Trace → Type 0) (E : Trace → Type 0) (m : M A)
    (f : A → M B) (t : Trace)
    → Returns P (m t)
    → ((a : A) (u : Trace) → P a u → Ends Q E (f a u))
    → Ends Q E ((m >>= f) t)
Returns-Ends-bind P Q E m f t h k = Ends-bind P Q E m f t (Returns-Ends P E (m t) h) k

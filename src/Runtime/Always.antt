-- ===== src/Runtime/Always.antt =====
-- Relations between the traces before and after a run, however it ends: one rule for each way to
-- build a run.
use tsn.Base.{Bool, true, false, List, [], ◌∷◌, ◌≡◌, Option, none, some, if◌then◌else◌}
use tsn.Runtime.Laws.{Returns}
use tsn.Runtime.{
  Trace, Call, Env, Result, done, fault, exited, M, pure, crash, exit, ◌>>=◌, deref, call, run,
  peek, for_each, fold_each,
}

-- Where the run stands when it ends, be it at a null pointer or in `exit`.
abbrev pub trace_of : {A : Type 0} → Result A → Trace
trace_of (done a t) = t
trace_of (fault t) = t
trace_of (exited t) = t

-- A relation that may be followed from call to call.
pub record IsOrder (R : Trace → Trace → Type 0) : Type 0 where
  pub stays : (t : Trace) → R t t
  pub trans : (t u v : Trace) → R t u → R u v → R t v

pub record Always {A : Type 0} (R : Trace → Trace → Type 0) (m : M A) : Type 0 where
  pub at : (t : Trace) → R t (trace_of (m t))

module _ {R : Trace → Trace → Type 0} {A : Type 0} where
  pub Always-pure : IsOrder R → (a : A) → Always R (pure a)
  Always-pure o a = record { at = o.stays }

  pub Always-crash : IsOrder R → Always R (crash {A = A})
  Always-crash o = record { at = o.stays }

  pub Always-exit : IsOrder R → Always R (exit {A = A})
  Always-exit o = record { at = o.stays }

  pub Always-peek : IsOrder R → (answer : Trace → A) → Always R (peek answer)
  Always-peek o answer = record { at = o.stays }

  pub Always-deref : IsOrder R → (p : Option A) → Always R (deref p)
  Always-deref o none = record { at = o.stays }
  Always-deref o (some a) = record { at = o.stays }

  pub Always-if : (b : Bool) (m n : M A) → Always R m → Always R n → Always R (if b then m else n)
  Always-if true m n km kn = km
  Always-if false m n km kn = kn

  pub Always-option :
      {B : Type 0} (p : Option B) (m : M A) (f : B → M A)
      → Always R m
      → ((b : B) → Always R (f b))
      → Always R (elim p [ none ↦ m | some b ↦ f b ])
  Always-option none m f km kf = km
  Always-option (some b) m f km kf = kf b

module _ {R : Trace → Trace → Type 0} where
  pub Always-run : (c : Call) → ((t : Trace) → R t (c ∷ t)) → Always R (run c)
  Always-run c h = record { at = h }

  pub Always-call : (env : Env) (c : Call) → ((t : Trace) → R t (c ∷ t)) → Always R (call env c)
  Always-call env c h = record { at = h }

  pub Always-bind :
      IsOrder R
      → {A B : Type 0} (m : M A) (f : A → M B) → Always R m
      → ((a : A) → Always R (f a))
      → Always R (m >>= f)
  Always-bind o {A} m f km kf = record { at = λ t. go t (m t) (km.at t) }
    where
      go :
          (t : Trace) (r : Result A)
          → R t (trace_of r)
          → R t (trace_of (elim r [ done a u ↦ f a u | fault u ↦ fault u | exited u ↦ exited u ]))
      go t (done a u) h = o.trans t u _ h ((kf a).at u)
      go t (fault u) h = h
      go t (exited u) h = h

  pub Always-for_each :
      IsOrder R
      → {A : Type 0} (xs : List A) (body : A → M (Unit {0})) → ((x : A) → Always R (body x))
      → Always R (for_each xs body)
  unfolding for_each
  Always-for_each o [] body k = Always-pure o tt
  Always-for_each o (x ∷ xs) body k =
      Always-bind o (body x) (λ _. for_each xs body) (k x) λ _. Always-for_each o xs body k

  pub Always-fold_each :
      IsOrder R
      → {A S : Type 0} (xs : List A) (s : S) (body : S → A → M S)
      → ((s : S) (x : A) → Always R (body s x))
      → Always R (fold_each xs s body)
  unfolding fold_each
  Always-fold_each o [] s body k = Always-pure o s
  Always-fold_each o (x ∷ xs) s body k =
      Always-bind o (body s x) (λ s'. fold_each xs s' body) (k s x)
        λ s'. Always-fold_each o xs s' body k

-- The calls that a test admits keep the relation.
abbrev pub Steps : (Trace → Trace → Type 0) → (Call → Bool) → Type 0
Steps R admits = (c : Call) → admits c ≡ true → (t : Trace) → R t (c ∷ t)

pub ruleset always_rules = (
  Always-pure, Always-crash, Always-exit, Always-peek, Always-deref, Always-if, Always-run,
  Always-call, Always-bind, Always-for_each, Always-fold_each,
)

-- A run that keeps a relation keeps a weaker one.
pub Always-mono :
    {A : Type 0} {R S : Trace → Trace → Type 0} (m : M A)
    → ((t u : Trace) → R t u → S t u)
    → Always R m
    → Always S m
Always-mono m k h = record { at = λ t. k t _ (h.at t) }

-- A run that returns, with what every run of it keeps.
pub Returns-Always :
    {A : Type 0} {R : Trace → Trace → Type 0} (P : A → Trace → Type 0) (m : M A)
    → Always R m
    → (t : Trace) → Returns P (m t)
    → Returns (λ a u. P a u × R t u) (m t)
Returns-Always {A} {R} P m k t h = go (m t) h (k.at t)
  where
    go : (r : Result A) → Returns P r → R t (trace_of r) → Returns (λ a u. P a u × R t u) r
    go (done a u) h g = (h, g)
    go (fault u) h g = h
    go (exited u) h g = h

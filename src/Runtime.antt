-- ===== src/Runtime.antt =====
-- What the program does to the world around it. A run is the sequence of the calls that it makes
-- into libraries and the kernel, and an environment answers each call by what was called before.
pub mod Calls
pub mod Streams
pub mod Containers
pub mod Laws
pub mod Ends
pub mod Netlink
pub mod Records
pub mod Session
pub mod Maps
pub mod Trees
pub mod Always
pub mod Leaks
pub mod Footprint
use tsn.Base.{ℕ, List, [], ◌∷◌, Bool, CStr, Option, none, some}
pub use Calls.*

-- The calls made so far, the latest first.
abbrev pub Trace : Type 0
Trace = List Call

-- A run returns, or stops: at a use of a null or wild pointer, or in `exit`.
pub data Result (A : Type 0) : Type 0 where
  done : A → Trace → Result A
  fault : Trace → Result A
  exited : Trace → Result A

abbrev pub M : Type 0 → Type 0
M A = Trace → Result A

abbrev pub pure : {A : Type 0} → A → M A
pure a t = done a t

abbrev pub crash : {A : Type 0} → M A
crash t = fault t

abbrev pub exit : {A : Type 0} → M A
exit t = exited t

infixl 5 ◌>>=◌ ◌>>◌
abbrev pub ◌>>=◌ : {A B : Type 0} → M A → (A → M B) → M B
◌>>=◌ m f t = elim (m t) [ done a u ↦ f a u | fault u ↦ fault u | exited u ↦ exited u ]

abbrev pub ◌>>◌ : {A B : Type 0} → M A → M B → M B
m >> k = m >>= λ _. k

-- A pointer that the code follows with no test.
abbrev pub deref : {A : Type 0} → Option A → M A
deref p t = elim p [ none ↦ fault t | some a ↦ done a t ]

-- The answers of the environment. Each sees the trace with the call in question at its head.
pub record Env : Type 0 where
  -- Whether the call succeeded: a status of 0, a result other than NULL or -1.
  pub succeeds : Trace → Bool
  pub if_nameindex : Trace → List IfName
  pub link_get_by_name : Trace → CStr → Option Link
  pub link_get : Trace → ℕ → Option Link
  pub ifaddrs : Trace → List IfAddr
  -- What an ioctl left in its argument.
  pub ioctl_value : Trace → ℕ
  -- What a command or a file holds.
  pub contents : Trace → List ℕ
  pub time : Trace → Option ℕ
  pub get_ds : Trace → Datastore
  -- What `vsnprintf` writes for `%s` with NULL; glibc writes `(null)`.
  pub null_text : CStr
  pub dbus_args : Trace → DbusArgs
  -- The message of the error that is set, if one is.
  pub dbus_error : Trace → Option CStr

module _ (env : Env) where
  -- Makes a call, and tells whether it succeeded.
  abbrev pub call : Call → M Bool
  call c t = done (env.succeeds (c ∷ t)) (c ∷ t)

-- A call that cannot fail, or whose failure is only logged.
abbrev pub run : Call → M (Unit {0})
run c t = done tt (c ∷ t)

-- What the environment answers to the last call.
abbrev pub peek : {A : Type 0} → (Trace → A) → M A
peek answer t = done (answer t) t

-- A loop over the items of a list.
unfoldable pub for_each : {A : Type 0} → List A → (A → M (Unit {0})) → M (Unit {0})
for_each [] body = pure tt
for_each (x ∷ xs) body = body x >> for_each xs body

-- A loop that carries a value.
unfoldable pub fold_each : {A S : Type 0} → List A → S → (S → A → M S) → M S
fold_each [] s body = pure s
fold_each (x ∷ xs) s body = body s x >>= λ s'. fold_each xs s' body

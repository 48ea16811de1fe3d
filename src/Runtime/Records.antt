-- ===== src/Runtime/Records.antt =====
-- What a trace shows: the values set, and the resources taken and given back.
use tsn.Base.{
  not, arith, ℕ, ◌+◌, ◌≡◌, List, [], ◌∷◌, ◌++◌, Bool, true, false, ◌||◌, if◌then◌else◌, CStr,
  Option, map,
}
use tsn.Runtime.{
  Trace, Env, Call, Val, Datastore, running, sr_set_item, sr_session_switch_ds, sr_acquire_context,
  sr_release_context, lyd_new_tree, lyd_new_path, nl_socket_alloc, nl_socket_free,
  rtnl_link_alloc_cache, nl_cache_free, socket, close, popen, pclose,
}

-- The calls of `sr_set_item`, the first first.
abbrev pub sets : Trace → List (CStr × Val)
sets [] = []
sets (sr_set_item path val ∷ t) = sets t ++ ((path, val) ∷ [])
sets (_ ∷ t) = sets t

-- The trace after some items are set.
abbrev pub set_all : List (CStr × Val) → Trace → Trace
set_all [] t = t
set_all ((path, val) ∷ items) t = set_all items (sr_set_item path val ∷ t)

-- The nodes that a provider made, with whether the node began a new tree.
abbrev pub nodes : Trace → List (Bool × CStr × Option CStr)
nodes [] = []
nodes (lyd_new_tree path val ∷ t) = nodes t ++ ((true, path, val) ∷ [])
nodes (lyd_new_path path val ∷ t) = nodes t ++ ((false, path, val) ∷ [])
nodes (_ ∷ t) = nodes t

-- The datastore of the session: the one that it was started on, until it is switched.
abbrev pub session_ds : Trace → Datastore
session_ds [] = running
session_ds (sr_session_switch_ds ds ∷ t) = ds
session_ds (_ ∷ t) = session_ds t

-- The items set so far, the first first, each with the datastore that it was set in.
abbrev pub written : Trace → List (Datastore × CStr)
written [] = []
written (sr_set_item path val ∷ t) = written t ++ ((session_ds t, path) ∷ [])
written (_ ∷ t) = written t

-- A run stays in a datastore, and sets the items of some paths.
abbrev pub Writes : Datastore → List CStr → Trace → Trace → Type 0
Writes ds paths t u = (session_ds u ≡ ds) × (written u ≡ written t ++ map (λ p. (ds, p)) paths)

-- A kind of resource: the calls that take one, if they succeed, and those that give one back.
pub data Resource : Type 0 where
  context nl_socket link_cache fd stream : Resource

abbrev pub takes : Resource → Call → Bool
takes context sr_acquire_context = true
takes nl_socket nl_socket_alloc = true
takes link_cache rtnl_link_alloc_cache = true
takes fd socket = true
takes stream (popen command) = true
takes _ _ = false

abbrev pub gives : Resource → Call → Bool
gives context sr_release_context = true
gives nl_socket nl_socket_free = true
gives link_cache nl_cache_free = true
gives fd close = true
gives stream pclose = true
gives _ _ = false

-- A context is there whatever `sr_acquire_context` says; it is released in every case.
abbrev pub is_sure : Resource → Bool
is_sure context = true
is_sure _ = false

abbrev pub taken : Env → Resource → Trace → ℕ
taken env r [] = 0
taken env r (c ∷ t) =
    (if takes r c then (if is_sure r || env.succeeds (c ∷ t) then 1 else 0) else 0) + taken env r t

abbrev pub given : Resource → Trace → ℕ
given r [] = 0
given r (c ∷ t) = (if gives r c then 1 else 0) + given r t

-- Between `t` and `u` as many of a resource were taken as given back, and `k` more.
abbrev pub Keeps : Env → Resource → ℕ → Trace → Trace → Type 0
Keeps env r k t u = taken env r u + given r t ≡ taken env r t + given r u + k

-- A call that takes and gives nothing.
abbrev pub is_quiet : Call → Bool
is_quiet c = not (
    takes context c
    || (gives context c
        || (takes nl_socket c
            || (gives nl_socket c
                || (takes link_cache c
                    || (gives link_cache c
                        || (takes fd c || (gives fd c || (takes stream c || gives stream c)))))))))

quiet : (c : Call) → is_quiet c ≡ true → (r : Resource) → (takes r c ≡ false) × (gives r c ≡ false)
quiet c h context = (ground arith, ground arith)
quiet c h nl_socket = (ground arith, ground arith)
quiet c h link_cache = (ground arith, ground arith)
quiet c h fd = (ground arith, ground arith)
quiet c h stream = (ground arith, ground arith)

pub quiet-Keeps :
    (env : Env) (r : Resource) (k : ℕ) (c : Call) (t u : Trace)
    → is_quiet c ≡ true
    → Keeps env r k t u
    → Keeps env r k t (c ∷ u)
quiet-Keeps env r k c t u h x = let (a, b) = quiet c h r in rw (a, b) (omega arith)

pub Keeps-trans :
    (env : Env) (r : Resource) (j k : ℕ) (t u v : Trace)
    → Keeps env r j t u
    → Keeps env r k u v
    → Keeps env r (j + k) t v
Keeps-trans env r j k t u v x y = omega arith

-- The resources other than a descriptor of `socket`.
abbrev pub is_fd : Resource → Bool
is_fd fd = true
is_fd _ = false

pub socket-Keeps :
    (env : Env) (r : Resource) (t u : Trace)
    → is_fd r ≡ false
    → Keeps env r 0 t u
    → Keeps env r 0 t (socket ∷ u)
socket-Keeps env context t u h x = omega arith
socket-Keeps env nl_socket t u h x = omega arith
socket-Keeps env link_cache t u h x = omega arith
socket-Keeps env fd t u h x = ground arith
socket-Keeps env stream t u h x = omega arith

pub close-Keeps :
    (env : Env) (r : Resource) (t u : Trace)
    → is_fd r ≡ false
    → Keeps env r 0 t u
    → Keeps env r 0 t (close ∷ u)
close-Keeps env context t u h x = omega arith
close-Keeps env nl_socket t u h x = omega arith
close-Keeps env link_cache t u h x = omega arith
close-Keeps env fd t u h x = ground arith
close-Keeps env stream t u h x = omega arith

-- A command that is started and waited for, and one that cannot be started.
pub popen-Keeps :
    (env : Env) (r : Resource) (command : CStr) (t : Trace)
    → (env.succeeds (popen command ∷ t) ≡ true → Keeps env r 0 t (pclose ∷ popen command ∷ t))
      × (env.succeeds (popen command ∷ t) ≡ false → Keeps env r 0 t (popen command ∷ t))
popen-Keeps env context command t = ((λ e. omega arith), λ e. omega arith)
popen-Keeps env nl_socket command t = ((λ e. omega arith), λ e. omega arith)
popen-Keeps env link_cache command t = ((λ e. omega arith), λ e. omega arith)
popen-Keeps env fd command t = ((λ e. omega arith), λ e. omega arith)
popen-Keeps env stream command t = ((λ e. ground arith), λ e. ground arith)

-- ===== src/Runtime/Netlink.antt =====
-- The frame in which interface.c and bridge.c read the kernel's links: a netlink socket, a cache of
-- links, and the tail that gives both back. It stands in five functions of the source.
pub mod Laws
pub mod Footprint
use tsn.Base.{
  ℕ, zero, suc, Option, none, some, List, [], ◌∷◌, Bool, true, false, CStr, text, strstr, ◌&&◌,
  ◌==◌, if◌then◌else◌,
}
use tsn.Runtime.{
  M, Env, call, run, pure, ◌>>=◌, ◌>>◌, IfName, nl_socket_alloc, nl_connect, nl_socket_free,
  nl_close, rtnl_link_alloc_cache, nl_cache_free,
}

module _ (env : Env) {A : Type 0} where
  -- From the cache on, with the socket connected.
  fill_cache : M A → M A → M (Unit {0}) → M A
  fill_cache no_cache body release = do
    filled ← call env rtnl_link_alloc_cache
    a ← if filled then body else no_cache
    release
    if filled then run nl_cache_free else pure tt
    run nl_close
    run nl_socket_free
    pure a

  -- `early` is what runs where the function returns at once: after a failure to allocate or to
  -- connect. `no_cache` is the jump to `cleanup` after a failure to fill the cache, which leaves
  -- `cache` NULL. `release` is what the tail does before it frees the cache and the socket.
  unfoldable pub with_link_cache : M A → M A → M A → M (Unit {0}) → M A
  unfolding fill_cache
  with_link_cache early no_cache body release = do
    allocated ← call env nl_socket_alloc
    connected ← if allocated then call env nl_connect else pure false
    if allocated && connected
        then fill_cache no_cache body release
        else if allocated
        then run nl_socket_free >> early
        else early

-- `for (idx_p = if_ni; idx_p != NULL && idx_p->if_index != 0 && idx_p->if_name != NULL; idx_p++)`:
-- the entries that the loop reaches.
unfoldable pub named : List IfName → List (ℕ × CStr)
named [] = []
named (e ∷ rest) = elim e.if_name [
  | none ↦ []
  | some name ↦ let more = named rest in if e.if_index == 0 then [] else (e.if_index, name) ∷ more
]

-- The test on a name that the loops over interfaces begin with.
unfoldable pub is_switch_port : CStr → Bool
is_switch_port name = elim (strstr name (text "eno")) [
  | some _ ↦ true
  | none ↦ elim (strstr name (text "swp")) [ some _ ↦ true | none ↦ false ]
]

-- ===== src/Runtime/Netlink/Footprint.antt =====
-- The calls of the frame that reads the kernel's links.
use tsn.Base.{Bool, true, false}
use tsn.Runtime.{
  Trace, M, Env, Call, nl_socket_alloc, nl_connect, nl_socket_free, nl_close, rtnl_link_alloc_cache,
  nl_cache_free,
}
use tsn.Runtime.Always.{IsOrder, Always, Steps, always_rules}
use tsn.Runtime.Netlink.{with_link_cache, fill_cache}

-- The calls of the frame itself.
abbrev pub is_frame : Call → Bool
is_frame nl_socket_alloc = true
is_frame nl_connect = true
is_frame nl_socket_free = true
is_frame nl_close = true
is_frame rtnl_link_alloc_cache = true
is_frame nl_cache_free = true
is_frame _ = false

module _ (env : Env) {A : Type 0} {R : Trace → Trace → Type 0} (order : IsOrder R)
    (frame : Steps R is_frame) (early no_cache body : M A) (release : M (Unit {0})) where
  pub with_link_cache-Always :
      Always R early
      → Always R no_cache
      → Always R body
      → Always R release
      → Always R (with_link_cache env early no_cache body release)
  unfolding with_link_cache fill_cache
  with_link_cache-Always e n b r = search (always_rules, frame) depth 12

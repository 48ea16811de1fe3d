-- ===== src/Interface/Providers/Footprint.antt =====
-- interface.c, the two providers: the calls that they make.
use tsn.Base.{CStr, Bool, refl, Option, none, some}
use tsn.Runtime.{Trace, Env, Link}
use tsn.Runtime.Containers.{Containers}
use tsn.Runtime.Always.{IsOrder, Always, Steps, always_rules}
use tsn.Runtime.Footprint.{makes_nodes, holds_context}
use tsn.Runtime.Netlink.Footprint.{is_frame, with_link_cache-Always}
use tsn.Utils.Clock.{CTime}
use tsn.Interface.Names.{Names}
use tsn.Interface.Names.Footprint.{reads_links, get_interface_names-Always}
use tsn.Interface.Providers.{
  new_node, add_new_path, add_link_statistics, add_statistics, statistics_round, oper_status_round,
  statistics_body, oper_status_body, interface_statistics_provider, interface_oper_status_provider,
}

module _ (env : Env) (lib : Containers) (clock : CTime) {R : Trace → Trace → Type 0}
    (order : IsOrder R) (reads : Steps R reads_links) (makes : Steps R makes_nodes)
    (holds : Steps R holds_context) where
  frame : Steps R is_frame
  frame c h = reads c (rw h refl)

  new_node-Always :
      (start : Bool) (path : CStr) (value : Option CStr) → Always R (new_node start path value)
  unfolding new_node
  new_node-Always start path value = search (always_rules, makes)

  add_statistics-Always : (name : CStr) (link : Link) → Always R (add_statistics name link)
  unfolding add_statistics add_new_path
  add_statistics-Always name link = search (always_rules, makes) depth 12

  add_link_statistics-Always :
      (start : Bool) (name : CStr) (current : Option CStr) (link : Option Link)
      → Always R (add_link_statistics start name current link)
  unfolding add_link_statistics
  add_link_statistics-Always start name current none = search (always_rules, reads)
  add_link_statistics-Always start name current (some link) =
      search (always_rules, reads, new_node-Always, add_statistics-Always) depth 12

  statistics_round-Always :
      (start : Bool) (name : CStr) → Always R (statistics_round env clock lib start name)
  unfolding statistics_round
  statistics_round-Always start name =
      search (always_rules, makes, reads, add_link_statistics-Always) depth 12

  oper_status_round-Always :
      (s : Bool × CStr) (name : CStr) → Always R (oper_status_round env clock lib s name)
  unfolding oper_status_round
  oper_status_round-Always (start, oper_state) name =
      search (always_rules, reads, new_node-Always) depth 12

  pub interface_statistics_provider-Always :
      (names : Names) → Always R (interface_statistics_provider env clock lib names)
  unfolding interface_statistics_provider statistics_body
  interface_statistics_provider-Always names =
      search
        (
          always_rules, holds, frame, with_link_cache-Always, get_interface_names-Always, reads,
          statistics_round-Always,
        )
        depth 12

  pub interface_oper_status_provider-Always :
      (names : Names) → Always R (interface_oper_status_provider env clock lib names)
  unfolding interface_oper_status_provider oper_status_body
  interface_oper_status_provider-Always names =
      search
        (
          always_rules, holds, frame, with_link_cache-Always, get_interface_names-Always, reads,
          oper_status_round-Always,
        )
        depth 12

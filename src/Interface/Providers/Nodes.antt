-- ===== src/Interface/Providers/Nodes.antt =====
-- interface.c: the nodes that the loops of the two providers make.
use tsn.Base.{
  ℕ, ◌≡◌, refl, sym, ◌∙◌, arith, Bool, true, false, Option, none, some, List, [], ◌∷◌, ◌++◌, CStr,
  subst, decimal, append_assoc, append-nil,
}
use tsn.Runtime.{
  Env, Trace, Link, time, rtnl_link_get_by_name, rtnl_link_put, run, pure, ◌>>◌, rx_bytes,
  rx_packets, rx_errors, rx_dropped, tx_bytes, tx_packets, tx_errors, tx_dropped,
}
use tsn.Runtime.Containers.{Containers}
use tsn.Runtime.Laws.{Returns, Returns-mono}
use tsn.Runtime.Records.{nodes}
use tsn.Utils.Clock.{CTime, get_iso8601_time}
use tsn.Interface.Save.{interface_path}
use tsn.Interface.Providers.{
  new_node, statistics_path, add_link_statistics, add_statistics, oper_state_text, next_state,
  statistics_round, oper_status_round,
}
use tsn.Runtime.Trees.{Node, Made, Extends}

-- The nine nodes of an interface.
abbrev pub statistics_nodes : Bool → CStr → Option CStr → Link → List Node
statistics_nodes start name current link =
    (start, statistics_path name "discontinuity-time", current)
    ∷ (false, statistics_path name "in-octets", some (decimal (link.stat rx_bytes)))
    ∷ (false, statistics_path name "in-unicast-pkts", some (decimal (link.stat rx_packets)))
    ∷ (false, statistics_path name "in-errors", some (decimal (link.stat rx_errors)))
    ∷ (false, statistics_path name "in-discards", some (decimal (link.stat rx_dropped)))
    ∷ (false, statistics_path name "out-octets", some (decimal (link.stat tx_bytes)))
    ∷ (false, statistics_path name "out-unicast-pkts", some (decimal (link.stat tx_packets)))
    ∷ (false, statistics_path name "out-errors", some (decimal (link.stat tx_errors)))
    ∷ (false, statistics_path name "out-discards", some (decimal (link.stat tx_dropped)))
    ∷ []

module _ (links : CStr → Option Link) where
  -- What names give, where `start` tells whether a tree is still to be begun: each name that has a
  -- link its nine nodes, at the time at which the link was read.
  pub data Statistics (clock : CTime) : Bool → List CStr → List Node → Type 0 where
    end : {start : Bool} → Statistics clock start [] []
    skip :
        {start : Bool} {name : CStr} {next : List CStr} {out : List Node}
        → links name ≡ none
        → Statistics clock start next out
        → Statistics clock start (name ∷ next) out
    counters :
        {start : Bool} {name : CStr} {next : List CStr} {out : List Node} {link : Link}
        → links name ≡ some link
        → (now : Option ℕ) → Statistics clock false next out
        → Statistics clock start
            (name ∷ next)
            (statistics_nodes start name (get_iso8601_time clock now) link ++ out)

  -- What names give, with the state that was published last: each name the state of its link, and
  -- one whose state the program does not know that of the name before.
  pub data OperStates : Bool × CStr → List CStr → List Node → Type 0 where
    end : {s : Bool × CStr} → OperStates s [] []
    known :
        {start : Bool} {last name state : CStr} {next : List CStr} {out : List Node} {link : Link}
        → links name ≡ some link
        → oper_state_text link.operstate ≡ some state
        → OperStates (false, state) next out
        → OperStates
            (start, last)
            (name ∷ next)
            ((start, interface_path name "oper-status", some state) ∷ out)
    unknown :
        {start : Bool} {last name : CStr} {next : List CStr} {out : List Node} {link : Link}
        → links name ≡ some link
        → oper_state_text link.operstate ≡ none
        → OperStates (false, last) next out
        → OperStates
            (start, last)
            (name ∷ next)
            ((start, interface_path name "oper-status", some last) ∷ out)

  next_OperStates :
      (start : Bool) (last name : CStr) (link : Link) (next : List CStr) (rest : List Node)
      → links name ≡ some link
      → OperStates (false, next_state last link.operstate) next rest
      → OperStates
          (start, last)
          (name ∷ next)
          ((start, interface_path name "oper-status", some (next_state last link.operstate)) ∷ rest)
  unfolding next_state
  next_OperStates start last name link next rest e = go (oper_state_text link.operstate) refl
    where
      go :
          (state : Option CStr)
          → oper_state_text link.operstate ≡ state
          → OperStates (false, next_state last link.operstate) next rest
          → OperStates
              (start, last)
              (name ∷ next)
              ((start, interface_path name "oper-status", some (next_state last link.operstate))
                ∷ rest)
      go none i = rw (i, next_state) (λ r. OperStates.unknown e i r)
      go (some state) i = rw (i, next_state) (λ r. OperStates.known e i r)

module _ (env : Env) (name : CStr) where
  publish_statistics :
      (current : Option CStr) (link : Link) (start : Bool) (t : Trace)
      → Returns
          (λ start' u. (start' ≡ false) × Made env (statistics_nodes start name current link) t u)
          ((new_node start (statistics_path name "discontinuity-time") current
              >> (add_statistics name link >> (run rtnl_link_put >> pure false)))
            t)
  unfolding new_node add_statistics
  publish_statistics current link true t = (refl, (simp append_assoc refl, omega arith))
  publish_statistics current link false t = (refl, (simp append_assoc refl, omega arith))

  publish_state :
      (state : CStr) (start : Bool) (t : Trace)
      → Returns
          (λ (s : Bool × CStr) u.
            (s ≡ (false, state))
            × Made env ((start, interface_path name "oper-status", some state) ∷ []) t u)
          ((new_node start (interface_path name "oper-status") (some state)
              >> (run rtnl_link_put >> pure (false, state)))
            t)
  unfolding new_node
  publish_state state true t = (refl, (refl, omega arith))
  publish_state state false t = (refl, (refl, omega arith))

module _ (env : Env) (clock : CTime) (lib : Containers) (links : CStr → Option Link)
    (reads : (t : Trace) (name : CStr) → env.link_get_by_name t name ≡ links name) where
  pub statistics_round-Made :
      (name : CStr) (start : Bool) (t : Trace)
      → Returns
          (Extends env (Statistics links clock) name start t)
          (statistics_round env clock lib start name t)
  unfolding statistics_round add_link_statistics new_node add_statistics
  statistics_round-Made name start t = go (links name) refl
    where
      go :
          (found : Option Link)
          → links name ≡ found
          → Returns
              (Extends env (Statistics links clock) name start t)
              (statistics_round env clock lib start name t)
      go none e =
          rw (reads (rtnl_link_get_by_name name ∷ t) name, e)
            ([], (λ next rest r. Statistics.skip e r), (sym (append-nil (nodes t)), omega arith))
      go (some link) e =
          let now = env.time (time ∷ rtnl_link_get_by_name name ∷ t) in
          rw (reads (rtnl_link_get_by_name name ∷ t) name, e)
            (Returns-mono
              (λ (start' : Bool) u.
                (start' ≡ false)
                × Made env (statistics_nodes start name (get_iso8601_time clock now) link)
                    (time ∷ rtnl_link_get_by_name name ∷ t) u)
              (Extends env (Statistics links clock) name start t) _
              (λ _ u (k, made). (
                statistics_nodes start name (get_iso8601_time clock now) link,
                (λ next rest r.
                    Statistics.counters e now
                      (subst (λ b. Statistics links clock b next rest) k r)),
                (made.0, omega (arith, made.1)),
              ))
              (publish_statistics env name (get_iso8601_time clock now) link start
                (time ∷ rtnl_link_get_by_name name ∷ t)))

  pub oper_status_round-Made :
      (name : CStr) (s : Bool × CStr) (t : Trace)
      → (link : Link) × (links name ≡ some link)
      → Returns (Extends env (OperStates links) name s t) (oper_status_round env clock lib s name t)
  unfolding oper_status_round
  oper_status_round-Made name (start, last) t (link, e) =
      let asked = rtnl_link_get_by_name name ∷ t in
      let state = next_state last link.operstate in
      let found : env.link_get_by_name asked name ≡ some link = reads asked name ∙ e in
      rw found (
        Returns-mono
          (λ (s : Bool × CStr) u.
            (s ≡ (false, state))
            × Made env ((start, interface_path name "oper-status", some state) ∷ []) asked u)
          (Extends env (OperStates links) name (start, last) t) _
          (λ _ u (k, made). (
            (start, interface_path name "oper-status", some state) ∷ [],
            (λ next rest r.
                next_OperStates links start last name link next rest e
                  (subst (λ b. OperStates links b next rest) k r)),
            (made.0, omega (arith, made.1)),
          ))
          (publish_state env name state start asked))

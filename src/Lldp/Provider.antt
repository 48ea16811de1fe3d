-- ===== src/Lldp/Provider.antt =====
-- lldp.c, lldp_port_provider.
pub mod Laws
pub mod Footprint
use tsn.Base.{
  ℕ, suc, Bool, true, false, not, Option, none, some, List, [], ◌∷◌, CStr, text, str_eq,
  if◌then◌else◌,
}
use tsn.Runtime.{
  M, Env, call, run, peek, pure, deref, ◌>>=◌, ◌>>◌, fold_each, sr_acquire_context,
  sr_release_context, popen, pclose,
}
use tsn.Runtime.Containers.{Containers}
use tsn.Runtime.Streams.{read_all}
use tsn.Lldp.{Xml}
use tsn.Lldp.Props.{is_named}
use tsn.Lldp.Publish.{provide_neighbour}

abbrev buffer_length : ℕ
buffer_length = 1024

module _ (env : Env) (lib : Containers) (xml : Xml) where
  -- One child of the root; `start` tells whether no node has been made yet.
  child_round : Bool → xml.Node → M Bool
  child_round start current =
      if is_named xml "interface" current
      then provide_neighbour env lib xml start current >> pure false
      else pure start

  -- What is done with the document, before the label `end`.
  provide_document : Option (Option xml.Node) → M (Unit {0})
  provide_document none = pure tt
  provide_document (some none) = pure tt
  provide_document (some (some root)) =
      if is_named xml "lldp" root
      then fold_each (xml.children root) true child_round >> pure tt
      else pure tt

  -- With the command running. The loop that reads its output always has fuel enough.
  provide_output : M (Unit {0})
  provide_output = do
    bytes ← peek env.contents
    s ← deref (read_all lib buffer_length bytes)
    run pclose
    provide_document (xml.parse_doc s)
    run sr_release_context

  unfoldable pub lldp_port_provider : M (Unit {0})
  unfolding provide_output provide_document child_round
  lldp_port_provider = do
    run sr_acquire_context
    opened ← call env (popen (text "lldpcli show neighbors -f xml"))
    if opened then provide_output else pure tt

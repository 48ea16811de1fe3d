-- ===== src/Lldp/Publish/Laws.antt =====
-- lldp.c: the nodes of a neighbour, and the neighbours that stop the program.
use tsn.Base.{
  ℕ, ◌≤◌, Bool, true, false, Option, none, some, List, [], ◌∷◌, ◌++◌, ◌≡◌, refl, arith, CStr, text,
  atoi, drop, length, append_assoc,
}
use tsn.Runtime.{◌>>=◌, Env, time, Trace, done}
use tsn.Runtime.Laws.{Returns}
use tsn.Runtime.Always.{Always}
use tsn.Runtime.Records.{nodes, context, Keeps}
use tsn.Lldp.Publish.Footprint.{provide_neighbour-Always}
use tsn.Utils.Mac.{to_ieee_mac_addr}
use tsn.Utils.Mac.Laws.{length-to_ieee_mac_addr}
use tsn.Lldp.{Lldp, Chassis, Port, Xml}
use tsn.Lldp.Props.{get_node_prop_str}
use tsn.Lldp.Parse.{get_lldp_from_node}
use tsn.Runtime.Containers.{Containers}
use tsn.Utils.Age.{get_age}
use tsn.Lldp.Publish.{lldp_path, from_byte, shown, publish, age_at, read_age, provide_neighbour}

-- A neighbour that has all that the loop body follows with no test.
pub record IsComplete (l : Lldp) (rid port_id : CStr) (port : Port) (chassis : Chassis)
    : Type 0 where
  pub has_rid : l.rid ≡ some rid
  pub has_port : l.port ≡ some port
  pub has_port_id : port.id ≡ some port_id
  pub long_id : 9 ≤ length port_id
  pub has_chassis : l.chassis ≡ some chassis

-- The seven nodes of a neighbour. The chassis id and the port id are said to be MAC addresses, and
-- of the port id the bytes from the tenth on are given.
pub neighbour_nodes :
    Bool → Lldp → CStr → CStr → CStr → Port → Chassis → List (Bool × CStr × Option CStr)
neighbour_nodes start l name rid port_id port chassis =
    let id = to_ieee_mac_addr port_id in
    let path = lldp_path name id l.age (atoi rid) in
    (start, path "system-name", chassis.name)
    ∷ (false, path "system-description", chassis.description)
    ∷ (false, path "chassis-id-subtype", some (text "mac-address"))
    ∷ (false, path "chassis-id", chassis.id)
    ∷ (false, path "port-id-subtype", some (text "mac-address"))
    ∷ (false, path "port-id", some (drop 9 id))
    ∷ (false, path "port-desc", port.description)
    ∷ []

long :
    {l : Lldp} {rid port_id : CStr} {port : Port} {chassis : Chassis}
    → IsComplete l rid port_id port chassis
    → 9 ≤ length (to_ieee_mac_addr port_id)
long {port_id} c = omega (arith, length-to_ieee_mac_addr port_id, c.long_id)

from_byte-some : (n : ℕ) (s : CStr) → n ≤ length s → from_byte n s ≡ some (drop n s)
unfolding from_byte
from_byte-some n s h = ground arith

-- A complete neighbour is published in full, in every state: seven nodes, the first of which begins
-- the tree if none was made before.
pub publish-nodes :
    (env : Env) (start : Bool) (l : Lldp) (rid port_id : CStr) (port : Port) (chassis : Chassis)
    (t : Trace)
    → IsComplete l rid port_id port chassis
    → Returns
        (λ _ u.
          nodes u ≡ nodes t ++ neighbour_nodes start l (shown env l.name) rid port_id port chassis)
        (publish env start l t)
unfolding publish neighbour_nodes
publish-nodes env true l rid port_id port chassis t c =
    rw
      (
        c.has_port,
        c.has_port_id,
        c.has_rid,
        c.has_chassis,
        from_byte-some 9 (to_ieee_mac_addr port_id) (long c),
      )
      (simp append_assoc)
publish-nodes env false l rid port_id port chassis t c =
    rw
      (
        c.has_port,
        c.has_port_id,
        c.has_rid,
        c.has_chassis,
        from_byte-some 9 (to_ieee_mac_addr port_id) (long c),
      )
      (simp append_assoc)

-- The attributes of the node, as the loop body adds them to what the node's children gave.
abbrev pub with_attributes : (xml : Xml) → xml.Node → ℕ → Lldp → Lldp
with_attributes xml n age l = record l {
  name = get_node_prop_str xml (some n) "name";
  via = get_node_prop_str xml (some n) "via";
  rid = get_node_prop_str xml (some n) "rid";
  age = age;
}

read_age-some :
    (env : Env) (s : CStr) (t : Trace)
    → read_age env (some s) t ≡ done (get_age (env.time (time ∷ t)) s) (time ∷ t)
unfolding read_age age_at get_age
read_age-some env s t = go (env.time (time ∷ t)) refl
  where
    go :
        (now : Option ℕ)
        → env.time (time ∷ t) ≡ now
        → read_age env (some s) t ≡ done (get_age (env.time (time ∷ t)) s) (time ∷ t)
    go none e = rw e
    go (some now) e = rw e

-- A node of the document that the loop body can publish: its children and attributes make a
-- complete neighbour.
pub record IsPublishable (lib : Containers) (xml : Xml) (n : xml.Node) : Type 0 where
  pub lldp : Lldp
  pub age : CStr
  pub rid : CStr
  pub port_id : CStr
  pub port : Port
  pub chassis : Chassis
  pub is_read : get_lldp_from_node xml lib n ≡ some lldp
  pub has_age : get_node_prop_str xml (some n) "age" ≡ some age
  pub is_complete : IsComplete (with_attributes xml n 0 lldp) rid port_id port chassis

-- The age makes no difference.
IsComplete-at :
    {lib : Containers} {xml : Xml} {n : xml.Node} (p : IsPublishable lib xml n) (age : ℕ)
    → IsComplete (with_attributes xml n age p.lldp) p.rid p.port_id p.port p.chassis
IsComplete-at p age = record {
  has_rid = p.is_complete.has_rid;
  has_port = p.is_complete.has_port;
  has_port_id = p.is_complete.has_port_id;
  long_id = p.is_complete.long_id;
  has_chassis = p.is_complete.has_chassis;
}

-- The nodes that are made of it, at the time `now`.
abbrev pub nodes_of :
    Env
    → {lib : Containers} {xml : Xml} {n : xml.Node} → IsPublishable lib xml n
    → Bool
    → Option ℕ
    → List (Bool × CStr × Option CStr)
nodes_of env {xml = xml} {n = n} p start now =
    let l = with_attributes xml n (get_age now p.age) p.lldp in
    neighbour_nodes start l (shown env l.name) p.rid p.port_id p.port p.chassis

pub provide_neighbour-nodes :
    (env : Env) (lib : Containers) (xml : Xml) (start : Bool) (n : xml.Node) (t : Trace)
    → (p : IsPublishable lib xml n)
    → Returns
        (λ _ u. nodes u ≡ nodes t ++ nodes_of env p start (env.time (time ∷ t)))
        (provide_neighbour env lib xml start n t)
unfolding provide_neighbour
provide_neighbour-nodes env lib xml start n t p =
    rw (p.is_read, p.has_age, read_age-some env p.age t, ◌>>=◌)
      (publish-nodes env start _ p.rid p.port_id p.port p.chassis (time ∷ t) (IsComplete-at p _))

-- The body of the loop neither takes nor releases a context, however it ends.
pub provide_neighbour_context :
    (env : Env) (lib : Containers) (xml : Xml) (start : Bool) (n : xml.Node)
    → Always (Keeps env context 0) (provide_neighbour env lib xml start n)
provide_neighbour_context env lib xml start n =
    provide_neighbour-Always env
      (record { stays = λ t. omega arith; trans = λ t u v h k. omega (arith, h, k) })
      (λ c h t. ground arith) lib xml start n

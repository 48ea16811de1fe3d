-- ===== src/Lldp/Node/Laws.antt =====
-- lldp.c: lldp_node_destroy frees what a node owns, once, and swp_str undoes itself.
use tsn.Base.{ℕ, ◌+◌, ◌≡◌, refl, arith, Option, none, some, CStr, total, total-append}
use tsn.Lldp.Node.{LldpNode, swp_str, Block, string, node, free_string, lldp_node_destroy}

swp_str-swp_str : (s : Option CStr × Option CStr) → swp_str (swp_str s) ≡ s
unfolding swp_str
swp_str-swp_str (s1, s2) = refl

module _ (w : Block → ℕ) where
  abbrev pub text_owned : Option CStr → ℕ
  text_owned none = 0
  text_owned (some s) = w (string s)

  total-free_string : (s : Option CStr) → total w (free_string s) ≡ text_owned s
  total-free_string none = refl
  total-free_string (some s) = omega arith

  -- Destruction frees the structure of a node and each of its nine strings that is there, once, and
  -- nothing else. This is counted by any weight of the blocks.
  total-lldp_node_destroy :
      (n : LldpNode)
      → total w (lldp_node_destroy (some n))
        ≡ w (node n)
          + (text_owned n.name + text_owned n.rid)
          + (text_owned n.chassis_id
              + text_owned n.chassis_type
              + text_owned n.chassis_name
              + text_owned n.chassis_description)
          + (text_owned n.port_id + text_owned n.port_type + text_owned n.port_description)
  unfolding lldp_node_destroy
  total-lldp_node_destroy n = simp (total-append, total-free_string) (omega arith)

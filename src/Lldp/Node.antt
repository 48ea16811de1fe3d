-- ===== src/Lldp/Node.antt =====
-- lldp.c and lldp.h, lldp_node_t and its functions, which nothing in the program calls yet.
pub mod Laws
use tsn.Base.{ℕ, Option, none, some, List, [], ◌∷◌, ◌++◌, CStr}

-- `lldp_node_t`.
pub record LldpNode : Type 0 where
  pub name : Option CStr
  pub rid : Option CStr
  pub age : ℕ
  pub chassis_id : Option CStr
  pub chassis_type : Option CStr
  pub chassis_name : Option CStr
  pub chassis_description : Option CStr
  pub port_id : Option CStr
  pub port_type : Option CStr
  pub port_description : Option CStr

-- What `*s1` and `*s2` are after `swp_str (s1, s2)`.
unfoldable pub swp_str : Option CStr × Option CStr → Option CStr × Option CStr
swp_str (s1, s2) = (s2, s1)

-- A block of the heap.
pub data Block : Type 0 where
  string : CStr → Block
  node : LldpNode → Block

abbrev pub free_string : Option CStr → List Block
free_string none = []
free_string (some s) = string s ∷ []

-- What `lldp_node_destroy` frees, in its order.
unfoldable pub lldp_node_destroy : Option LldpNode → List Block
lldp_node_destroy none = []
lldp_node_destroy (some n) =
    free_string n.name
    ++ (free_string n.rid
        ++ (free_string n.chassis_id
            ++ (free_string n.chassis_type
                ++ (free_string n.chassis_name
                    ++ (free_string n.chassis_description
                        ++ (free_string n.port_id
                            ++ (free_string n.port_type
                                ++ (free_string n.port_description ++ (node n ∷ [])))))))))

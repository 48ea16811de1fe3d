-- ===== src/Interface/Destroy.antt =====
-- interface.c, interface_destroy, and the cleanup of main.c that calls it for every interface: what
-- is freed.
pub mod Laws
use tsn.Base.{Option, none, some, List, [], ◌∷◌, ◌++◌, CStr, concat_map}
use tsn.Interface.{Interface}
use tsn.Interface.Collect.{Interfaces}

-- A block of the heap: a copy that `strdup` made, or a structure.
pub data Block : Type 0 where
  string : CStr → Block
  interface : Interface → Block

-- `if (p != NULL) free (p);` on a string.
abbrev pub free_string : Option CStr → List Block
free_string none = []
free_string (some s) = string s ∷ []

-- What the function frees, in its order; the name of an interface is never NULL here.
unfoldable pub interface_destroy : Option Interface → List Block
interface_destroy none = []
interface_destroy (some intf) =
    free_string (some intf.name)
    ++ (free_string intf.kind ++ (free_string intf.master_name ++ (interface intf ∷ [])))

-- The loop over the nodes of the map.
unfoldable pub destroy_interfaces : Interfaces → List Block
unfolding interface_destroy
destroy_interfaces interfaces = concat_map (λ (key, intf). interface_destroy (some intf)) interfaces

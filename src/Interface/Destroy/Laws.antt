-- ===== src/Interface/Destroy/Laws.antt =====
-- interface.c: the cleanup frees what collect_interfaces allocated.
use tsn.Base.{ℕ, ◌+◌, ◌≡◌, refl, arith, Option, none, some, [], ◌∷◌, CStr, total, total-append}
use tsn.Interface.{Interface}
use tsn.Interface.Collect.{Interfaces}
use tsn.Interface.Destroy.{
  Block, string, interface, free_string, interface_destroy, destroy_interfaces,
}

module _ (w : Block → ℕ) where
  abbrev pub text_owned : Option CStr → ℕ
  text_owned none = 0
  text_owned (some s) = w (string s)

  -- What `collect_interfaces` allocates for an interface: the structure, its name, and copies of
  -- the link's type and of the master's name, if there are such.
  abbrev pub interface_owned : Interface → ℕ
  interface_owned intf =
      w (interface intf) + w (string intf.name) + text_owned intf.kind + text_owned intf.master_name

  total-free_string : (s : Option CStr) → total w (free_string s) ≡ text_owned s
  total-free_string none = refl
  total-free_string (some s) = omega arith

  total-interface_destroy :
      (intf : Interface) → total w (interface_destroy (some intf)) ≡ interface_owned intf
  unfolding interface_destroy
  total-interface_destroy intf = simp (total-append, total-free_string) (omega arith)

  -- The cleanup of `main` frees, for each interface of the map, its structure and each string that
  -- was allocated for it, once, and nothing else. This is counted by any weight of the blocks.
  total-destroy_interfaces :
      (interfaces : Interfaces)
      → total w (destroy_interfaces interfaces)
        ≡ total (λ (key, intf). interface_owned intf) interfaces
  unfolding destroy_interfaces
  total-destroy_interfaces [] = refl
  total-destroy_interfaces ((key, intf) ∷ interfaces) = omega (
    arith,
    total-append w (interface_destroy (some intf)) (destroy_interfaces interfaces),
    total-interface_destroy intf,
    total-destroy_interfaces interfaces,
  )

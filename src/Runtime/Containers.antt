-- ===== src/Runtime/Containers.antt =====
-- The containers under lib/, a copy of Open vSwitch's, by what their documentation promises: a
-- dynamic string grows at its end, a list and a string vector too, and a string map keeps its
-- nodes in an order of its own.
use mathlib.Core.List.{Perm}
use tsn.Base.{ℕ, ◌≡◌, Option, none, some, List, [], ◌∷◌, ◌++◌, CStr, str_eq, if◌then◌else◌}

pub record Containers : Type 1 where
  pub ds_put_cstr : CStr → CStr → CStr
  pub ds_put_char : CStr → ℕ → CStr
  pub list_push_back : (A : Type 0) → List A → A → List A
  pub svec_add_nocopy : List CStr → CStr → List CStr
  -- A map is the list of its nodes, in the order in which SHASH_FOR_EACH visits them.
  pub shash_add : (V : Type 0) → List (CStr × V) → CStr → V → List (CStr × V)
  pub shash_find_data : (V : Type 0) → List (CStr × V) → CStr → Option V
  pub sset_add : List CStr → CStr → List CStr

-- The documented behaviour.
pub record IsLawful (lib : Containers) : Type 1 where
  pub ds_put_cstr-append : (ds s : CStr) → lib.ds_put_cstr ds s ≡ ds ++ s
  pub ds_put_char-append : (ds : CStr) (c : ℕ) → lib.ds_put_char ds c ≡ ds ++ (c ∷ [])
  pub list_push_back-append :
      (A : Type 0) (xs : List A) (x : A) → lib.list_push_back A xs x ≡ xs ++ (x ∷ [])
  pub svec_add_nocopy-append :
      (xs : List CStr) (x : CStr) → lib.svec_add_nocopy xs x ≡ xs ++ (x ∷ [])
  -- A node is added, whether or not the name is new.
  pub shash_add-perm :
      (V : Type 0) (m : List (CStr × V)) (k : CStr) (v : V)
      → Perm (lib.shash_add V m k v) ((k, v) ∷ m)
  -- Nothing is found in an empty map, and a node is found under its name if the name was new.
  pub shash_find_data-nil : (V : Type 0) (j : CStr) → lib.shash_find_data V [] j ≡ none
  pub shash_find_data-add :
      (V : Type 0) (m : List (CStr × V)) (k j : CStr) (v : V)
      → lib.shash_find_data V m k ≡ none
      → lib.shash_find_data V (lib.shash_add V m k v) j
        ≡ (if str_eq k j then some v else lib.shash_find_data V m j)

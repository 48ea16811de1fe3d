-- ===== src/Lldp/Props/Laws.antt =====
-- lldp.c: what the children of a node say, key by key.
use tsn.Base.{
  Bool, true, List, [], ◌∷◌, ◌++◌, ◌≡◌, String, text, str_eq→eq, map, append_assoc, refl, false,
  if◌then◌else◌,
}
use tsn.Lldp.{Xml}
use tsn.Lldp.Props.{is_named}

module _ (xml : Xml) where
  -- The value of the last child of a name, or the default if no child has it.
  unfoldable pub last_value : {A : Type 0} → (xml.Node → A) → String → A → List xml.Node → A
  last_value value key default [] = default
  last_value value key default (n ∷ next) =
      last_value value key (if is_named xml key n then value n else default) next

  -- The children of a name, in order.
  unfoldable pub named_children : String → List xml.Node → List xml.Node
  named_children key [] = []
  named_children key (n ∷ next) =
      if is_named xml key n then n ∷ named_children key next else named_children key next

  pub is_named→eq :
      (key : String) (n : xml.Node) → is_named xml key n ≡ true → xml.name n ≡ text key
  unfolding is_named
  is_named→eq key n h = str_eq→eq _ _ h

-- A list that grows by the child `n`, if `b`, and then by those of `next`.
pub append-if :
    {A B : Type 0} (f : A → B) (b : Bool) (xs : List B) (n : A) (next : List A)
    → (if b then xs ++ (f n ∷ []) else xs) ++ map f next
      ≡ xs ++ map f (if b then n ∷ next else next)
append-if f true xs n next = append_assoc xs (f n ∷ []) (map f next)
append-if f false xs n next = refl

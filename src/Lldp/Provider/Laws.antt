-- ===== src/Lldp/Provider/Laws.antt =====
-- lldp.c: what lldp_port_provider publishes, and the context that it holds.
use tsn.Base.{
  ℕ, ◌≡◌, refl, sym, ap, ◌∙◌, arith, Bool, true, false, Option, none, some, List, [], ◌∷◌, ◌++◌,
  All, CStr, text, if◌then◌else◌, append_assoc, append-nil, Bool-cases, inl, inr,
}
use tsn.Runtime.{
  Env, Trace, run, done, time, sr_acquire_context, sr_release_context, popen, pclose, fold_each,
  ◌>>=◌,
}
use tsn.Runtime.Containers.{Containers, IsLawful}
use tsn.Runtime.Always.{Returns-Always}
use tsn.Runtime.Laws.{Returns, Returns-bind, fold_each-Returns_of}
use tsn.Runtime.Records.{nodes, context, Keeps}
use tsn.Runtime.Streams.Laws.{HasNoNul, read_all_lem}
use tsn.Lldp.{Xml}
use tsn.Lldp.Props.{is_named}
use tsn.Lldp.Publish.{provide_neighbour}
use tsn.Lldp.Publish.Laws.{
  provide_neighbour_context, IsPublishable, nodes_of, provide_neighbour-nodes,
}
use tsn.Lldp.Provider.{child_round, provide_document, lldp_port_provider, buffer_length}

module _ (env : Env) (lib : Containers) (xml : Xml) where
  -- A row of children gives these nodes, where `start` tells whether a tree is still to be begun:
  -- each child named `interface` its seven nodes, with the age that it has by the clock as it was
  -- asked for this child.
  pub data Publishes : Bool → List xml.Node → List (Bool × CStr × Option CStr) → Type 0 where
    end : {start : Bool} → Publishes start [] []
    skip :
        {start : Bool} {n : xml.Node} {next : List xml.Node}
        {out : List (Bool × CStr × Option CStr)}
        → is_named xml "interface" n ≡ false
        → Publishes start next out
        → Publishes start (n ∷ next) out
    neighbour :
        {start : Bool} {n : xml.Node} {next : List xml.Node}
        {out : List (Bool × CStr × Option CStr)}
        → is_named xml "interface" n ≡ true
        → (p : IsPublishable lib xml n) (asked : Trace) → Publishes false next out
        → Publishes start (n ∷ next) (nodes_of env p start (env.time (time ∷ asked)) ++ out)

module _ (lib : Containers) (xml : Xml) where
  -- A child that does not stop the loop.
  abbrev pub IsFine : xml.Node → Type 0
  IsFine n = is_named xml "interface" n ≡ true → IsPublishable lib xml n

module _ (env : Env) (lib : Containers) (xml : Xml) where
  -- Where the loop stands, which began at `t0`: the rest of the children will add what is missing.
  abbrev Loop : Trace → List xml.Node → List xml.Node → Bool → Trace → Type 0
  Loop t0 all next start u =
      (made : List (Bool × CStr × Option CStr)) × (nodes u ≡ nodes t0 ++ made)
      × ((rest : List (Bool × CStr × Option CStr))
          → Publishes env lib xml start next rest
          → Publishes env lib xml true all (made ++ rest))
      × Keeps env context 0 t0 u

  child_round-Loop :
      (t0 : Trace) (all : List xml.Node) (n : xml.Node) (next : List xml.Node) (start : Bool)
      (t : Trace)
      → IsFine lib xml n
      → Loop t0 all (n ∷ next) start t
      → Returns (Loop t0 all next) (child_round env lib xml start n t)
  unfolding child_round
  child_round-Loop t0 all n next start t fine (made, e, grow, kept) =
      elim (Bool-cases (is_named xml "interface" n)) [
        | inr no_interface ↦
            rw no_interface (made, e, λ rest h. grow rest (Publishes.skip no_interface h), kept)
        | inl interface ↦
            let p = fine interface in
            let now = env.time (time ∷ t) in
            rw interface (
              Returns-bind
                (λ _ u. (nodes u ≡ nodes t ++ nodes_of env p start now) × Keeps env context 0 t u)
                (Loop t0 all next) (provide_neighbour env lib xml start n) (λ _ u. _) t
                (Returns-Always _ (provide_neighbour env lib xml start n)
                  (provide_neighbour_context env lib xml start n) t
                  (provide_neighbour-nodes env lib xml start n t p))
                λ a u k. (
                  made ++ nodes_of env p start now,
                  k.0 ∙ ap (λ l. l ++ nodes_of env p start now) e ∙ append_assoc (nodes t0) made _,
                  (λ rest h. rw (append_assoc made) (grow _ (Publishes.neighbour interface p t h))),
                  omega (arith, kept, k.1),
                ))
      ]

  -- The document of a run: its root is named `lldp`, and no neighbour in it stops the loop.
  pub record IsDocument (s : CStr) (root : xml.Node) : Type 0 where
    pub parses : xml.parse_doc s ≡ some (some root)
    pub is_lldp : is_named xml "lldp" root ≡ true
    pub fine : All (IsFine lib xml) (xml.children root)

  -- The run from `t` to `u` has published the children of the root, and released its context.
  abbrev pub Published : xml.Node → Trace → Trace → Type 0
  Published root t u =
      (out : List (Bool × CStr × Option CStr)) × Publishes env lib xml true (xml.children root) out
      × (nodes u ≡ nodes t ++ out)
      × Keeps env context 0 t u

  provide_document-Published :
      (s : CStr) (root : xml.Node) (t : Trace)
      → IsDocument s root
      → Returns (λ _ u. Published root t u) (provide_document env lib xml (xml.parse_doc s) t)
  unfolding provide_document
  provide_document-Published s root t d =
      rw (d.parses, d.is_lldp)
        (Returns-bind (Loop t (xml.children root) []) (λ _ u. Published root t u)
          (fold_each (xml.children root) true (child_round env lib xml)) (λ _ u. _) t
          (fold_each-Returns_of (IsFine lib xml) (Loop t (xml.children root))
            (child_round env lib xml)
            (λ n next start u f h. child_round-Loop t (xml.children root) n next start u f h)
            (xml.children root) true t d.fine
            ([], sym (append-nil (nodes t)), (λ rest h. h), omega arith))
          (λ start u h. (h.0, rw append-nil at (h.2 [] Publishes.end), h.1, h.3)))

  -- The trace when the command has been started.
  abbrev pub started : Trace → Trace
  started t = popen (text "lldpcli show neighbors -f xml") ∷ sr_acquire_context ∷ t

  -- The command runs, and what it prints is `s`, with no NUL in it.
  pub record Prints (t : Trace) (s : CStr) : Type 0 where
    pub runs : env.succeeds (started t) ≡ true
    pub printed : env.contents (started t) ≡ s
    pub no_nul : HasNoNul s

  -- If the command prints a document whose root is named `lldp` and of whose neighbours none lacks
  -- what the loop body follows, the provider returns. It has then made the nodes of all neighbours
  -- in order, the first of them with a new tree, each with its age by the clock, and it has
  -- released its context.
  pub lldp_port_provider-Published :
      IsLawful lib
      → (t : Trace) (s : CStr) (root : xml.Node) → Prints t s
      → IsDocument s root
      → Returns (λ _ u. Published root t u) (lldp_port_provider env lib xml t)
  unfolding lldp_port_provider
  lldp_port_provider-Published lawful t s root h d =
      rw (h.runs, h.printed, read_all_lem lib lawful buffer_length s (omega arith) h.no_nul)
        (Returns-bind (λ _ u. Published root (pclose ∷ started t) u) (λ _ u. Published root t u)
          (provide_document env lib xml (xml.parse_doc s)) (λ _. run sr_release_context)
          (pclose ∷ started t) (provide_document-Published s root (pclose ∷ started t) d)
          (λ a u k. (k.0, k.1, k.2, omega (arith, k.3))))

  -- The run has made no node, and `k` contexts are not released.
  abbrev pub NothingPublished : ℕ → Trace → Trace → Type 0
  NothingPublished k t u = (nodes u ≡ nodes t) × Keeps env context k t u

  -- What the command prints is no XML, has no root, or has a root of another name.
  abbrev pub IsForeign : Option (Option xml.Node) → Type 0
  IsForeign none = Unit
  IsForeign (some none) = Unit
  IsForeign (some (some root)) = is_named xml "lldp" root ≡ false

  provide_document_foreign :
      (doc : Option (Option xml.Node)) (t : Trace)
      → IsForeign doc
      → provide_document env lib xml doc t ≡ done tt t
  unfolding provide_document
  provide_document_foreign none t f = refl
  provide_document_foreign (some none) t f = refl
  provide_document_foreign (some (some root)) t f = rw f

  -- Where the command cannot be started, or its output has no NUL and is not XML, is empty or has a
  -- root of another name, the provider returns and has made no node. It has released its context
  -- if the command was started; otherwise it holds it still.
  pub lldp_port_provider_unpublished :
      IsLawful lib
      → (t : Trace)
      → (env.succeeds (started t) ≡ true
          → HasNoNul (env.contents (started t))
            × IsForeign (xml.parse_doc (env.contents (started t))))
      → Returns
          (λ _ u. NothingPublished (if env.succeeds (started t) then 0 else 1) t u)
          (lldp_port_provider env lib xml t)
  unfolding lldp_port_provider
  lldp_port_provider_unpublished lawful t foreign = elim (Bool-cases (env.succeeds (started t))) [
    | inr e ↦ rw e (refl, omega arith)
    | inl e ↦
        let s = env.contents (started t) in
        let (no_nul, f) = foreign e in
        rw (e, read_all_lem lib lawful buffer_length s (omega arith) no_nul)
          (rw (provide_document_foreign (xml.parse_doc s) (pclose ∷ started t) f, ◌>>=◌)
            (refl, omega arith))
  ]

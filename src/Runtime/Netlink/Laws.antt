-- ===== src/Runtime/Netlink/Laws.antt =====
-- The netlink frame gives back what it takes.
use tsn.Base.{
  ℕ, ◌+◌, ◌≡◌, refl, arith, true, false, Bool, ◌&&◌, Bool-cases, inl, inr, if◌then◌else◌, ◌∷◌,
}
use tsn.Runtime.{
  M, Env, Trace, Call, pure, run, done, nl_socket_alloc, nl_connect, nl_socket_free, nl_close,
  rtnl_link_alloc_cache, nl_cache_free,
}
use tsn.Runtime.Laws.{Returns, Returns-mono, Returns-bind}
use tsn.Runtime.Records.{Resource, context, nl_socket, Keeps, taken, given, gives}
use tsn.Runtime.Netlink.{fill_cache, with_link_cache}

-- The run keeps a resource, but for `k` that it does not give back.
abbrev pub Leaves : {A : Type 0} → Env → Resource → ℕ → M A → Type 0
Leaves env r k m = (t : Trace) → Returns (λ _ u. Keeps env r k t u) (m t)

-- The sockets that the frame holds when it fills the cache.
abbrev held : Resource → ℕ
held r = if gives r nl_socket_free then 1 else 0

-- `v` follows `t`, and holds the frame's socket no more.
abbrev Frees : Env → Resource → ℕ → Trace → Trace → Type 0
Frees env r k t v = taken env r v + given r t + held r ≡ taken env r t + given r v + k

tail_with_cache :
    (env : Env) (r : Resource) (k : ℕ) (t u v : Trace)
    → env.succeeds (rtnl_link_alloc_cache ∷ t) ≡ true
    → Keeps env r k (rtnl_link_alloc_cache ∷ t) u
    → Keeps env r 0 u v
    → Frees env r k t (nl_socket_free ∷ nl_close ∷ nl_cache_free ∷ v)
tail_with_cache env context k t u v e x y = ground arith
tail_with_cache env _ k t u v e x y = ground arith

tail_without_cache :
    (env : Env) (r : Resource) (k : ℕ) (t u v : Trace)
    → env.succeeds (rtnl_link_alloc_cache ∷ t) ≡ false
    → Keeps env r k (rtnl_link_alloc_cache ∷ t) u
    → Keeps env r 0 u v
    → Frees env r k t (nl_socket_free ∷ nl_close ∷ v)
tail_without_cache env context k t u v e x y = ground arith
tail_without_cache env _ k t u v e x y = ground arith

no_socket :
    (env : Env) (r : Resource) (k : ℕ) (t u : Trace)
    → env.succeeds (nl_socket_alloc ∷ t) ≡ false
    → Keeps env r k (nl_socket_alloc ∷ t) u
    → Keeps env r k t u
no_socket env nl_socket k t u e x = ground arith
no_socket env _ k t u e x = ground arith

connected :
    (env : Env) (r : Resource) (k : ℕ) (t u : Trace)
    → env.succeeds (nl_socket_alloc ∷ t) ≡ true
    → Frees env r k (nl_connect ∷ nl_socket_alloc ∷ t) u
    → Keeps env r k t u
connected env nl_socket k t u e x = ground arith
connected env _ k t u e x = ground arith

not_connected :
    (env : Env) (r : Resource) (k : ℕ) (t u : Trace)
    → env.succeeds (nl_socket_alloc ∷ t) ≡ true
    → Keeps env r k (nl_socket_free ∷ nl_connect ∷ nl_socket_alloc ∷ t) u
    → Keeps env r k t u
not_connected env nl_socket k t u e x = ground arith
not_connected env _ k t u e x = ground arith

module _ {A : Type 0} (env : Env) (r : Resource) (k : ℕ) (early no_cache body : M A)
    (release : M (Unit {0})) where
  fill_cache_keeps :
      Leaves env r k no_cache
      → Leaves env r k body
      → Leaves env r 0 release
      → (t : Trace) → Returns (λ _ u. Frees env r k t u) (fill_cache env no_cache body release t)
  unfolding fill_cache
  fill_cache_keeps hn hb hr t = elim (Bool-cases (env.succeeds (rtnl_link_alloc_cache ∷ t))) [
    | inl e ↦ rw e (
        Returns-bind (λ _ u. Keeps env r k (rtnl_link_alloc_cache ∷ t) u) _ body _ _ (hb _)
          λ a u x.
            Returns-bind (λ _ v. Keeps env r 0 u v) _ release _ u (hr u)
              λ b v y. tail_with_cache env r k t u v e x y)
    | inr e ↦ rw e (
        Returns-bind (λ _ u. Keeps env r k (rtnl_link_alloc_cache ∷ t) u) _ no_cache _ _ (hn _)
          λ a u x.
            Returns-bind (λ _ v. Keeps env r 0 u v) _ release _ u (hr u)
              λ b v y. tail_without_cache env r k t u v e x y)
  ]

  -- The frame keeps every resource that its parts keep, on every path.
  pub with_link_cache_keeps :
      Leaves env r k early
      → Leaves env r k no_cache
      → Leaves env r k body
      → Leaves env r 0 release
      → Leaves env r k (with_link_cache env early no_cache body release)
  unfolding with_link_cache
  with_link_cache_keeps he hn hb hr t = elim (Bool-cases (env.succeeds (nl_socket_alloc ∷ t))) [
    | inr e ↦
        rw e (
          Returns-mono _ _ (early _) (λ a u x. no_socket env r k t u e x)
            (he (nl_socket_alloc ∷ t)))
    | inl e ↦ elim (Bool-cases (env.succeeds (nl_connect ∷ nl_socket_alloc ∷ t))) [
      | inl c ↦
          rw (e, c)
            (Returns-mono _ _ (fill_cache env no_cache body release _)
              (λ a u x. connected env r k t u e x) (fill_cache_keeps hn hb hr _))
      | inr c ↦
          rw (e, c)
            (Returns-mono _ _ (early _) (λ a u x. not_connected env r k t u e x)
              (he (nl_socket_free ∷ nl_connect ∷ nl_socket_alloc ∷ t)))
    ]
  ]

-- How far the frame comes from a trace on: to the socket, to the connection, and to the cache.
abbrev pub is_allocated : Env → Trace → Bool
is_allocated env t = env.succeeds (nl_socket_alloc ∷ t)

abbrev pub is_connected : Env → Trace → Bool
is_connected env t = is_allocated env t && env.succeeds (nl_connect ∷ nl_socket_alloc ∷ t)

abbrev pub is_filled : Env → Trace → Bool
is_filled env t =
    is_connected env t && env.succeeds (rtnl_link_alloc_cache ∷ nl_connect ∷ nl_socket_alloc ∷ t)

module _ {A : Type 0} (env : Env) (P : A → Trace → Type 0) (early no_cache body : M A)
    (release : M (Unit {0})) where
  -- Where the cache is filled, the body runs, then the release, and the frame is taken down.
  pub with_link_cache_filled :
      (t : Trace)
      → is_filled env t ≡ true
      → Returns
          (λ a u. Returns (λ _ v. P a (nl_socket_free ∷ nl_close ∷ nl_cache_free ∷ v)) (release u))
          (body (rtnl_link_alloc_cache ∷ nl_connect ∷ nl_socket_alloc ∷ t))
      → Returns P (with_link_cache env early no_cache body release t)
  unfolding with_link_cache fill_cache
  with_link_cache_filled t filled h =
      let a : env.succeeds (nl_socket_alloc ∷ t) ≡ true = ground arith in
      let b : env.succeeds (nl_connect ∷ nl_socket_alloc ∷ t) ≡ true = ground arith in
      let c : env.succeeds (rtnl_link_alloc_cache ∷ nl_connect ∷ nl_socket_alloc ∷ t) ≡ true =
        ground arith in
      rw (a, b, c)
        (Returns-bind
          (λ a u. Returns (λ _ v. P a (nl_socket_free ∷ nl_close ∷ nl_cache_free ∷ v)) (release u))
          P body _ _ h (λ a u k. Returns-bind _ P release _ u k (λ _ v p. p)))

-- Where it is not, the frame is taken down as far as it was put up. Only where the socket was
-- connected does the release run.
pub with_link_cache_unfilled :
    {A : Type 0} (env : Env) (a : A) (body : M A) (c : Call) (t : Trace)
    → is_filled env t ≡ false
    → with_link_cache env (pure a) (pure a) body (run c) t
      ≡ done a (
          if is_connected env t
          then nl_socket_free ∷ nl_close ∷ c ∷ rtnl_link_alloc_cache ∷ nl_connect ∷ nl_socket_alloc
            ∷ t
          else if is_allocated env t
          then nl_socket_free ∷ nl_connect ∷ nl_socket_alloc ∷ t
          else nl_socket_alloc ∷ t)
unfolding with_link_cache fill_cache
with_link_cache_unfilled env a body c t unfilled =
    elim (Bool-cases (env.succeeds (nl_socket_alloc ∷ t))) [
      | inr e ↦ rw e refl
      | inl e ↦ elim (Bool-cases (env.succeeds (nl_connect ∷ nl_socket_alloc ∷ t))) [
        | inr i ↦ rw (e, i) refl
        | inl i ↦
            let j : env.succeeds (rtnl_link_alloc_cache ∷ nl_connect ∷ nl_socket_alloc ∷ t)
                ≡ false =
              ground arith in
            rw (e, i, j) refl
      ]
    ]

-- Where the socket cannot be had or connected, `early` runs.
pub with_link_cache_early :
    {A : Type 0} (env : Env) (early no_cache body : M A) (release : M (Unit {0})) (t : Trace)
    → is_connected env t ≡ false
    → with_link_cache env early no_cache body release t
      ≡ early (
          if is_allocated env t
          then nl_socket_free ∷ nl_connect ∷ nl_socket_alloc ∷ t
          else nl_socket_alloc ∷ t)
unfolding with_link_cache
with_link_cache_early env early no_cache body release t h = elim (Bool-cases (is_allocated env t)) [
  | inr e ↦ rw e refl
  | inl e ↦
      let i : env.succeeds (nl_connect ∷ nl_socket_alloc ∷ t) ≡ false = ground arith in
      rw (e, i) refl
]

-- Where only the cache cannot be filled, and nothing else is to be released.
pub with_link_cache_no_cache :
    {A : Type 0} (env : Env) (a : A) (early body : M A) (t : Trace)
    → is_connected env t ≡ true
    → is_filled env t ≡ false
    → with_link_cache env early (pure a) body (pure tt) t
      ≡ done a
          (nl_socket_free ∷ nl_close ∷ rtnl_link_alloc_cache ∷ nl_connect ∷ nl_socket_alloc ∷ t)
unfolding with_link_cache fill_cache
with_link_cache_no_cache env a early body t h k =
    let e : env.succeeds (nl_socket_alloc ∷ t) ≡ true = ground arith in
    let i : env.succeeds (nl_connect ∷ nl_socket_alloc ∷ t) ≡ true = ground arith in
    let j : env.succeeds (rtnl_link_alloc_cache ∷ nl_connect ∷ nl_socket_alloc ∷ t) ≡ false =
      ground arith in
    rw (e, i, j) refl

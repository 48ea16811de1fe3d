-- ===== src/Main/Loop.antt =====
-- main.c: what the loop of data_provider does, round after round.
use tsn.Base.{ℕ, zero, suc, Bool, true, false, Cases, ◌≡◌, ◌∷◌, All}
use tsn.Runtime.{Env, Trace, sleep, getifaddrs}
use tsn.Runtime.Containers.{Containers, IsLawful}
use tsn.Runtime.Laws.{Returns}
use tsn.Runtime.Records.{sets}
use tsn.Interface.Collect.{Interfaces}
use tsn.Interface.Ips.Rounds.{IsMasked, addresses_in}
use tsn.Interface.Save.{update_ips}
use tsn.Interface.Save.Speeds.{RefreshesSpeeds}
use tsn.Interface.Save.Update.{Refreshed, update_ips-Refreshed}

module _ (env : Env) (lib : Containers) (interfaces : Interfaces) where
  -- What a round does for the addresses, from the answer that getifaddrs then gives.
  abbrev pub RefreshesIps : Trace → Trace → Type 0
  RefreshesIps t u =
      Cases (env.succeeds (getifaddrs ∷ t))
        (Refreshed env (λ k. addresses_in env lib interfaces k (env.ifaddrs (getifaddrs ∷ t))) t u)
        (sets u ≡ sets t)

  -- The loop as it is meant: a number of rounds, each of which sleeps, then refreshes the
  -- addresses, then the speeds.
  pub data Serves : ℕ → Trace → Trace → Type 0 where
    at_end : {t : Trace} → Serves zero t t
    round :
        {rounds : ℕ} {t w : Trace} (u v : Trace)
        → RefreshesIps (sleep ∷ t) u
        → RefreshesSpeeds env lib interfaces u v
        → Serves rounds v w
        → Serves (suc rounds) t w

  pub update_ips-RefreshesIps :
      IsLawful lib
      → (t : Trace) → All IsMasked (env.ifaddrs (getifaddrs ∷ t))
      → Returns (λ _ u. RefreshesIps t u) (update_ips env lib interfaces t)
  update_ips-RefreshesIps lawful t masks =
      go _ _ (env.succeeds (getifaddrs ∷ t))
        (update_ips-Refreshed env lib interfaces lawful t masks)
    where
      go :
          (P Q : Trace → Type 0) (b : Bool)
          → Cases b
              (Returns (λ _ u. P u) (update_ips env lib interfaces t))
              (Returns (λ _ u. Q u) (update_ips env lib interfaces t))
          → Returns (λ _ u. Cases b (P u) (Q u)) (update_ips env lib interfaces t)
      go P Q true h = h
      go P Q false h = h

-- ===== src/Interface/Speed/Laws.antt =====
-- interface.c: what becomes of the speed.
use tsn.Base.{
  Cases, Cases_intro, ◌==◌, ==→eq, ℕ, ◌*◌, ◌<◌, ◌≡◌, ◌≢◌, refl, arith, Bool-cases, inl, inr, ◌∷◌,
  CStr, u32_mod, u64_mod, if◌then◌else◌,
}
use tsn.Runtime.{Env, Trace, socket, siocethtool}
use tsn.Runtime.Laws.{Returns}
use tsn.Runtime.Records.{sets}
use tsn.Interface.Speed.{get_interface_speed, speed_bps, no_speed, no_bps}

-- What the kernel says of the speed of an interface when it is asked after `t`: the speed that the
-- ioctl leaves, or that none is known where the socket or the ioctl fails.
abbrev pub speed_at : Env → CStr → Trace → ℕ
speed_at env name t =
    let opened = socket ∷ t in
    let asked = siocethtool name ∷ opened in
    if env.succeeds opened
    then (if env.succeeds asked then env.ioctl_value asked else no_speed)
    else no_speed

pub get_interface_speed-speed_at :
    (env : Env) (name : CStr) (t : Trace)
    → Returns
        (λ s u. (s ≡ speed_at env name t) × (sets u ≡ sets t))
        (get_interface_speed env name t)
unfolding get_interface_speed
get_interface_speed-speed_at env name t = elim (Bool-cases (env.succeeds (socket ∷ t))) [
  | inr e ↦ rw e (refl, refl)
  | inl e ↦ elim (Bool-cases (env.succeeds (siocethtool name ∷ socket ∷ t))) [
    | inl k ↦ rw (e, k) (refl, refl)
    | inr k ↦ rw (e, k) (refl, refl)
  ]
]

-- For a speed of 32 bits the product with 1000000 does not overflow 64 bits, and it is never taken
-- for the value that stands for an unknown speed.
speed_bps_bounds :
    (speed : ℕ)
    → speed < u32_mod
    → (speed_bps speed < u64_mod)
      × Cases
          (speed == no_speed)
          (speed_bps speed ≡ no_bps)
          ((speed_bps speed ≡ speed * 1000000) × (speed_bps speed ≢ no_bps))
unfolding speed_bps
speed_bps_bounds speed h = (
  ground arith,
  Cases_intro (speed == no_speed) (λ e. ground (arith, ==→eq speed no_speed e))
      (λ e. (ground arith, ground arith)),
)

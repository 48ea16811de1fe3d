-- ===== src/Interface/Speed.antt =====
-- interface.c, get_interface_speed, and the conversion of its result.
pub mod Laws
pub mod Footprint
use tsn.Base.{ℕ, ◌*◌, ◌-◌, ◌==◌, Bool, CStr, u32_mod, u64_mod, if◌then◌else◌}
use tsn.Runtime.{M, Env, call, run, peek, pure, ◌>>=◌, ◌>>◌, socket, close, siocethtool}

-- -1 as an `unsigned int` and as a `uint64_t`.
abbrev pub no_speed : ℕ
no_speed = u32_mod - 1

abbrev pub no_bps : ℕ
no_bps = u64_mod - 1

-- With the socket open.
read_speed : Env → CStr → M ℕ
read_speed env interface_name = do
  read ← call env (siocethtool interface_name)
  speed ← peek env.ioctl_value
  if read then run close >> pure speed else pure no_speed

-- `*speed`, in Mb/s. The socket stays open where the ioctl fails.
unfoldable pub get_interface_speed : Env → CStr → M ℕ
unfolding read_speed
get_interface_speed env interface_name = do
  opened ← call env socket
  if opened then read_speed env interface_name else pure no_speed

-- `if (speed != -1) (uint64_t)speed * 1000000ul else -1`
unfoldable pub speed_bps : ℕ → ℕ
speed_bps speed = if speed == no_speed then no_bps else speed * 1000000

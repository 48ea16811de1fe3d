-- ===== src/Runtime/Leaks.antt =====
-- The descriptors and the streams that a run leaves open.
use tsn.Base.{ℕ, ◌+◌, ◌≡◌, arith, [], ◌∷◌, if◌then◌else◌}
use tsn.Runtime.{Env, Trace, siocethtool, open_file, close_file}
use tsn.Runtime.Always.{IsOrder}
use tsn.Runtime.Records.{fd, stream, taken, given, Keeps}

-- How often the kernel was asked for a speed in vain.
abbrev pub failed_asks : Env → Trace → ℕ
failed_asks env [] = 0
failed_asks env (siocethtool name ∷ t) =
    (if env.succeeds (siocethtool name ∷ t) then 0 else 1) + failed_asks env t
failed_asks env (_ ∷ t) = failed_asks env t

-- The results of `open`, and those given to `close`. Both are counted with the -1 of a failure,
-- which the program gives to `close` as well.
abbrev pub opened : Trace → ℕ
opened [] = 0
opened (open_file path ∷ t) = 1 + opened t
opened (_ ∷ t) = opened t

abbrev pub closed : Trace → ℕ
closed [] = 0
closed (close_file ∷ t) = 1 + closed t
closed (_ ∷ t) = closed t

-- Between `t` and `u`, the sockets that were opened are those that were closed, and one for each
-- time that the kernel was asked for a speed in vain; every stream of a command was closed, and so
-- was every file.
abbrev pub Leaks : Env → Trace → Trace → Type 0
Leaks env t u =
    (taken env fd u + given fd t + failed_asks env t
      ≡ taken env fd t + given fd u + failed_asks env u)
    × Keeps env stream 0 t u
    × (opened u + closed t ≡ opened t + closed u)

pub Leaks-IsOrder : (env : Env) → IsOrder (Leaks env)
Leaks-IsOrder env = record {
  stays = λ t. (omega arith, omega arith, omega arith);
  trans = λ t u v (a, b, c) (x, y, z). (omega arith, omega arith, omega arith);
}

-- ===== src/Runtime/Streams.antt =====
-- `while (fgets (buffer, size, fp) != NULL) ds_put_cstr (&output, buffer);`, the loop by which the
-- program reads the output of a command, over the C library's fgets.
pub mod Laws
use tsn.Base.{
  ℕ, zero, suc, ◌+◌, ◌-◌, ◌<◌, ◌≤◌, ◌≡◌, refl, sym, ap, ◌∙◌, arith, Option, none, some, List, [],
  ◌∷◌, ◌++◌, append_assoc, append-nil, All, ◌≢◌, ◌==◌, if◌then◌else◌, CStr, c_string, length,
  Bool-cases, inl, inr,
}
use tsn.Runtime.Containers.{Containers}

-- At most `room` bytes, up to a newline, which is taken too; and what is left of the stream.
get_line : ℕ → List ℕ → List ℕ × List ℕ
get_line zero stream = ([], stream)
get_line (suc room) [] = ([], [])
get_line (suc room) (b ∷ stream) =
    let (line, rest) = get_line room stream in
    if b == b'\n' then (b ∷ [], stream) else (b ∷ line, rest)

-- `fgets (buffer, size, fp)`: NULL at the end of the stream.
fgets : ℕ → List ℕ → Option (List ℕ × List ℕ)
unfolding get_line
fgets size [] = none
fgets size (b ∷ stream) = some (get_line (size - 1) (b ∷ stream))

module _ (lib : Containers) where
  -- The loop on fuel; `none` means that the fuel ran out.
  read_loop : ℕ → ℕ → CStr → List ℕ → Option CStr
  read_loop zero size output stream = none
  read_loop (suc fuel) size output stream = elim (fgets size stream) [
    | none ↦ some output
    | some (buffer, rest) ↦ read_loop fuel size (lib.ds_put_cstr output (c_string buffer)) rest
  ]

  -- Each round takes a byte, so that one round more than the bytes is enough.
  unfoldable pub read_all : ℕ → List ℕ → Option CStr
  unfolding read_loop fgets
  read_all size stream = read_loop (suc (length stream)) size [] stream

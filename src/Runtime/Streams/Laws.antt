-- ===== src/Runtime/Streams/Laws.antt =====
-- The reading loop: lines and the buffer's size do not show in what is collected.
use tsn.Base.{
  ℕ, zero, suc, ◌-◌, ◌<◌, ◌≤◌, ◌≡◌, refl, sym, ap, ◌∙◌, arith, some, List, [], ◌∷◌, ◌++◌,
  append_assoc, append-nil, All, ◌≢◌, ◌==◌, CStr, c_string, length, length-append, Bool-cases, inl,
  inr,
}
use tsn.Runtime.Containers.{Containers, IsLawful}
use tsn.Runtime.Streams.{get_line, fgets, read_loop, read_all}

abbrev pub HasNoNul : List ℕ → Type 0
HasNoNul s = All (λ b. b ≢ 0) s

get_line-append : (room : ℕ) (s : List ℕ) → (get_line room s).0 ++ (get_line room s).1 ≡ s
unfolding get_line
get_line-append zero s = refl
get_line-append (suc room) [] = refl
get_line-append (suc room) (b ∷ s) = elim (Bool-cases (b == b'\n')) [
  | inl e ↦ rw e
  | inr e ↦ rw e (ap (◌∷◌ b) (get_line-append room s))
]

get_line_shorter :
    (room : ℕ) (b : ℕ) (s : List ℕ) → length (get_line (suc room) (b ∷ s)).1 ≤ length s
unfolding get_line
get_line_shorter room b s = elim (Bool-cases (b == b'\n')) [
  | inl e ↦ rw e (omega arith)
  | inr e ↦ rw e (
      omega (
        arith,
        ap length (get_line-append room s),
        length-append (get_line room s).0 (get_line room s).1,
      ))
]

get_line-HasNoNul :
    (room : ℕ) (s : List ℕ)
    → HasNoNul s
    → HasNoNul (get_line room s).0 × HasNoNul (get_line room s).1
unfolding get_line
get_line-HasNoNul zero s h = (tt, h)
get_line-HasNoNul (suc room) [] h = (tt, tt)
get_line-HasNoNul (suc room) (b ∷ s) (nz, h) =
    let (l, r) = get_line-HasNoNul room s h in
    elim (Bool-cases (b == b'\n')) [ inl e ↦ rw e ((nz, tt), h) | inr e ↦ rw e ((nz, l), r) ]

c_string-HasNoNul : (s : List ℕ) → HasNoNul s → c_string s ≡ s
c_string-HasNoNul [] h = refl
c_string-HasNoNul (b ∷ s) (nz, h) = ground (arith, c_string-HasNoNul s h)

module _ (lib : Containers) (lawful : IsLawful lib) where
  read_loop-append :
      (fuel room : ℕ) (out : CStr) (s : List ℕ)
      → length s < fuel
      → HasNoNul s
      → read_loop lib fuel (suc (suc room)) out s ≡ some (out ++ s)
  unfolding read_loop fgets
  read_loop-append zero room out s h nn = absurd (omega arith)
  read_loop-append (suc fuel) room out [] h nn = ap some (sym (append-nil out))
  read_loop-append (suc fuel) room out (b ∷ s) h nn = rw less (
      let (l, r) = get_line-HasNoNul (suc room) (b ∷ s) nn in
      rw (c_string-HasNoNul _ l, lawful.ds_put_cstr-append)
        (read_loop-append fuel room _ _ (omega (arith, get_line_shorter room b s)) r
          ∙ ap some (append_assoc out _ _ ∙ ap (◌++◌ out) (get_line-append (suc room) (b ∷ s)))))
    where
      less : suc (suc room) - 1 ≡ suc room
      less = omega arith

  -- The loop ends within its fuel. With a buffer of two bytes or more it collects the whole of a
  -- stream that holds no NUL, however the stream falls into lines and chunks.
  pub read_all_lem : (size : ℕ) (s : List ℕ) → 2 ≤ size → HasNoNul s → read_all lib size s ≡ some s
  unfolding read_all
  read_all_lem zero s h nn = absurd (omega arith)
  read_all_lem (suc zero) s h nn = absurd (omega arith)
  read_all_lem (suc (suc room)) s h nn =
      read_loop-append (suc (length s)) room [] s (omega arith) nn

-- The loop ends within its fuel on every stream.
read_loop_total :
    (lib : Containers) (fuel room : ℕ) (out : CStr) (s : List ℕ)
    → length s < fuel
    → (r : CStr) × (read_loop lib fuel (suc (suc room)) out s ≡ some r)
unfolding read_loop fgets
read_loop_total lib zero room out s h = absurd (omega arith)
read_loop_total lib (suc fuel) room out [] h = (out, refl)
read_loop_total lib (suc fuel) room out (b ∷ s) h =
    rw less (read_loop_total lib fuel room _ _ (omega (arith, get_line_shorter room b s)))
  where
    less : suc (suc room) - 1 ≡ suc room
    less = omega arith

pub read_all_total :
    (lib : Containers) (room : ℕ) (s : List ℕ)
    → (r : CStr) × (read_all lib (suc (suc room)) s ≡ some r)
unfolding read_all
read_all_total lib room s = read_loop_total lib (suc (length s)) room [] s (omega arith)

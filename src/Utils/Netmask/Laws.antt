-- ===== src/Utils/Netmask/Laws.antt =====
-- utils.c: `netmask_prefix` counts the one bits, and inverts the making of a netmask.
use Prim.Native.Nat.{min}
use native.Mathlib.Nat.{pow-suc}
use tsn.Base.{
  ℕ, zero, suc, ◌+◌, ◌-◌, ◌*◌, ◌/◌, ◌%◌, ◌^◌, ◌≤◌, ◌<◌, ◌≡◌, refl, ap, ◌∙◌, arith, dec_lt, some,
  Bool, true, ◌&&◌, ◌==◌, ==→eq, u8_mod, u32_mod,
}
use tsn.Utils.Netmask.{inet, inet6, ones_loop, netmask_prefix}

-- The number of ones among the last `w` bits of a word.
pub ones : ℕ → ℕ → ℕ
ones zero n = 0
ones (suc w) n = n % 2 + ones w (n / 2)

ones-zero : (w : ℕ) → ones w 0 ≡ 0
unfolding ones
ones-zero zero = refl
ones-zero (suc w) = omega (arith, ones-zero w)

ones-le : (w n : ℕ) → ones w n ≤ w
unfolding ones
ones-le zero n = omega arith
ones-le (suc w) n = omega (arith, ones-le w (n / 2))

ones_loop-ones :
    (w n p : ℕ) → n < 2 ^ w → p + w < u8_mod → ones_loop (suc w) n p ≡ some (p + ones w n)
unfolding ones_loop ones
ones_loop-ones zero n p h k = ground arith
ones_loop-ones (suc w) n p h k =
    ground (
      arith,
      ones-zero w,
      pow-suc 2 w,
      ones_loop-ones w (n / 2) p,
      ones_loop-ones w (n / 2) (p + 1),
    )

-- The loops end within their fuel for all words of 32 bits. The result is the number of one bits:
-- at most 32 for AF_INET and at most 128 otherwise, so that the 8-bit counter never wraps.
pub netmask_prefix-ones :
    (w0 w1 w2 w3 : ℕ)
    → w0 < u32_mod
    → w1 < u32_mod
    → w2 < u32_mod
    → w3 < u32_mod
    → (netmask_prefix (inet w0) ≡ some (ones 32 w0))
      × (netmask_prefix (inet6 w0 w1 w2 w3)
          ≡ some (ones 32 w0 + ones 32 w1 + ones 32 w2 + ones 32 w3))
      × (ones 32 w0 ≤ 32)
      × (ones 32 w0 + ones 32 w1 + ones 32 w2 + ones 32 w3 ≤ 128)
unfolding netmask_prefix
netmask_prefix-ones w0 w1 w2 w3 h0 h1 h2 h3 =
    let b = ones-le 32 in
    let r0 = ones_loop-ones 32 w0 0 h0 (omega arith) in
    let r1 = ones_loop-ones 32 w1 (0 + ones 32 w0) h1 (omega (arith, b w0)) in
    let r2 = ones_loop-ones 32 w2 (0 + ones 32 w0 + ones 32 w1) h2 (omega (arith, b w0, b w1)) in
    let r3 =
      ones_loop-ones 32 w3 (0 + ones 32 w0 + ones 32 w1 + ones 32 w2) h3
        (omega (arith, b w0, b w1, b w2)) in
    (
      rw r0 (ground arith),
      rw (r0, r1, r2, r3) (ground arith),
      b w0,
      omega (arith, b w0, b w1, b w2, b w3),
    )

-- The byte of a netmask that begins with `p` ones.
abbrev mask_byte : ℕ → ℕ
mask_byte p = 256 - 2 ^ (8 - min p 8)

-- The four bytes of a word of a netmask, as a little-endian machine reads them.
pub mask_word : ℕ → ℕ
mask_word p =
    mask_byte p
    + 256 * mask_byte (p - 8)
    + 65536 * mask_byte (p - 16)
    + 16777216 * mask_byte (p - 24)

all_below : ℕ → (ℕ → Bool) → Bool
all_below zero test = true
all_below (suc n) test = test n && all_below n test

all_below_sound :
    (n : ℕ) (test : ℕ → Bool) (x : ℕ) → all_below n test ≡ true → x < n → test x ≡ true
unfolding all_below
all_below_sound zero test x h lt = absurd (omega arith)
all_below_sound (suc n) test x h lt = ground (arith, all_below_sound n test x)

mask_table : all_below 33 (λ p. ones 32 (mask_word p) == p) ≡ true
unfolding all_below ones mask_word
mask_table = refl

mask_word_short : (p : ℕ) → p ≤ 32 → ones 32 (mask_word p) ≡ p
mask_word_short p h =
    ==→eq _ p (all_below_sound 33 (λ p. ones 32 (mask_word p) == p) p mask_table (omega arith))

mask_word_long : (p : ℕ) → 32 ≤ p → mask_word p ≡ u32_mod - 1
unfolding mask_word
mask_word_long p h = rw (
  clip p (omega arith),
  clip (p - 8) (omega arith),
  clip (p - 16) (omega arith),
  clip (p - 24) (omega arith),
)
  where
    clip : (q : ℕ) → 8 ≤ q → min q 8 ≡ 8
    clip q k = omega arith

ones-mask_word : (p : ℕ) → ones 32 (mask_word p) ≡ min p 32
unfolding mask_word
ones-mask_word p = elim (dec_lt 32 p) [
  | yes h ↦ rw (mask_word_long p (omega arith)) (omega (arith, all_ones))
  | no h ↦ omega (arith, mask_word_short p (omega arith))
]
  where
    all_ones : ones 32 (u32_mod - 1) ≡ 32
    all_ones = mask_word_short 32 (omega arith)

mask_byte-lt : (q : ℕ) → mask_byte q < 256
mask_byte-lt q = omega (arith, pow_pos (8 - min q 8))
  where
    pow_pos : (n : ℕ) → 0 < 2 ^ n
    pow_pos zero = omega arith
    pow_pos (suc n) = omega (arith, pow_pos n, pow-suc 2 n)

mask_word-lt : (p : ℕ) → mask_word p < u32_mod
unfolding mask_word
mask_word-lt p = let b = mask_byte-lt in omega (arith, b p, b (p - 8), b (p - 16), b (p - 24))

-- Of the netmask of `p` leading ones, `p` up to 32 for AF_INET and up to 128 otherwise, the
-- function returns `p`.
pub netmask_prefix-mask :
    (p q : ℕ)
    → p ≤ 32
    → q ≤ 128
    → (netmask_prefix (inet (mask_word p)) ≡ some p)
      × (netmask_prefix
            (inet6 (mask_word q) (mask_word (q - 32)) (mask_word (q - 64)) (mask_word (q - 96)))
          ≡ some q)
netmask_prefix-mask p q hp hq =
    let m = mask_word-lt in
    let (four, _, _, _) =
      netmask_prefix-ones (mask_word p) 0 0 0 (m p) (omega arith) (omega arith) (omega arith) in
    let (_, six, _, _) =
      netmask_prefix-ones (mask_word q) (mask_word (q - 32)) (mask_word (q - 64))
        (mask_word (q - 96)) (m q) (m (q - 32)) (m (q - 64)) (m (q - 96)) in
    (
      four ∙ ap some (ones-mask_word p ∙ omega arith),
      six
          ∙ ap some (
              rw
                (
                  ones-mask_word q,
                  ones-mask_word (q - 32),
                  ones-mask_word (q - 64),
                  ones-mask_word (q - 96),
                )
                (omega arith)),
    )

-- ===== src/Hardware/Texts/Laws.antt =====
-- hardware.c: the chassis's id is the first that the document gives.
use tsn.Base.{
  ap, ◌∙◌, ◌≤◌, ◌<◌, arith, zero, suc, length, drop, true, false, ℕ, All, is_space, skip_spaces,
  strstr, text, starts_with-append, Option, none, some, List, [], ◌∷◌, ◌++◌, ◌≡◌, refl, CStr,
  Bool-cases, inl, inr, if◌then◌else◌,
}
use tsn.Runtime.Containers.{Containers}
use tsn.Lldp.{Xml}
use tsn.Lldp.Props.{is_named}
use tsn.Hardware.Texts.{
  is_mac_id, id_loop, chassis_loop, found_or, is_crlf, trim_line_crlf, description_of, described,
  find_chassis_id, trim_loop, read_trimmed,
}

module _ (xml : Xml) where
  -- The contents of the ids that hold a MAC address, among the children of a chassis.
  unfoldable pub mac_ids : List xml.Node → List CStr
  mac_ids [] = []
  mac_ids (n ∷ ns) = if is_mac_id xml n then xml.content n ∷ mac_ids ns else mac_ids ns

  -- The same of all the chassis among the children of the root.
  unfoldable pub all_mac_ids : List xml.Node → List CStr
  unfolding mac_ids
  all_mac_ids [] = []
  all_mac_ids (n ∷ ns) =
      if is_named xml "chassis" n
      then mac_ids (xml.children n) ++ all_mac_ids ns
      else all_mac_ids ns

abbrev pub first : List CStr → Option CStr
first [] = none
first (x ∷ xs) = some x

first-append : (xs ys : List CStr) → first (xs ++ ys) ≡ found_or (first xs) (first ys)
unfolding found_or
first-append [] ys = refl
first-append (x ∷ xs) ys = refl

module _ (xml : Xml) where
  id_loop-first : (ns : List xml.Node) → id_loop xml ns ≡ first (mac_ids xml ns)
  unfolding id_loop mac_ids
  id_loop-first [] = refl
  id_loop-first (n ∷ ns) = elim (Bool-cases (is_mac_id xml n)) [
    | inl e ↦ rw e
    | inr e ↦ rw (e, id_loop-first ns)
  ]

  chassis_loop-first : (ns : List xml.Node) → chassis_loop xml ns ≡ first (all_mac_ids xml ns)
  unfolding chassis_loop all_mac_ids
  chassis_loop-first [] = refl
  chassis_loop-first (n ∷ ns) = elim (Bool-cases (is_named xml "chassis" n)) [
    | inl e ↦ rw (
      e,
      chassis_loop-first ns,
      id_loop-first (xml.children n),
      first-append (mac_ids xml (xml.children n)) (all_mac_ids xml ns),
    )
    | inr e ↦ rw (e, chassis_loop-first ns)
  ]

  -- The loops with their early exit find, under a root named `local-chassis`, the content of the
  -- first id of type `mac` in the order of the document, over all chassis, and nothing if there is
  -- none. Under another root they find nothing.
  pub find_chassis_id-first :
      (root : xml.Node)
      → find_chassis_id xml (some (some root)) ≡ (
          if is_named xml "local-chassis" root
          then first (all_mac_ids xml (xml.children root))
          else none)
  unfolding find_chassis_id
  find_chassis_id-first root = rw (chassis_loop-first (xml.children root))

-- Blanks at the front are skipped.
skip_spaces-append :
    (blanks : CStr) (c : ℕ) (s : CStr)
    → All (λ b. is_space b ≡ true) blanks
    → is_space c ≡ false
    → skip_spaces (blanks ++ (c ∷ s)) ≡ c ∷ s
unfolding skip_spaces
skip_spaces-append [] c s h k = rw k
skip_spaces-append (b ∷ blanks) c s (e, h) k = rw e (skip_spaces-append blanks c s h k)

-- The line up to its end.
trim_line_crlf-append :
    (line : CStr) (c : ℕ) (rest : CStr)
    → All (λ b. is_crlf b ≡ false) line
    → is_crlf c ≡ true
    → trim_line_crlf (line ++ (c ∷ rest)) ≡ line
unfolding trim_line_crlf
trim_line_crlf-append [] c rest h k = rw k
trim_line_crlf-append (b ∷ line) c rest (e, h) k = rw (e, trim_line_crlf-append line c rest h k)

strstr-front :
    (k : ℕ) (key rest : CStr) → strstr ((k ∷ key) ++ rest) (k ∷ key) ≡ some ([], (k ∷ key) ++ rest)
unfolding strstr
strstr-front k key rest = rw (starts_with-append (k ∷ key) rest)

-- Of the line that `lsb_release -d` prints, the text `Description:`, blanks and a description that
-- begins with no blank, the function returns the description, without the end of the line and what
-- follows it.
pub description_of-line :
    (blanks : CStr) (c : ℕ) (more : CStr) (end : ℕ) (rest : CStr)
    → All (λ b. is_space b ≡ true) blanks
    → is_space c ≡ false
    → All (λ b. is_crlf b ≡ false) (c ∷ more)
    → is_crlf end ≡ true
    → description_of (text "Description:" ++ (blanks ++ ((c ∷ more) ++ (end ∷ rest))))
      ≡ some (c ∷ more)
unfolding description_of described text
description_of-line blanks c more end rest hb hc hl he =
    let line = blanks ++ ((c ∷ more) ++ (end ∷ rest)) in
    ap (λ found. described found (text "Description:" ++ line))
      (strstr-front b'D' (text "escription:") line)
    ∙ ap (λ s. some (trim_line_crlf s)) (skip_spaces-append blanks c (more ++ (end ∷ rest)) hb hc)
    ∙ ap some (trim_line_crlf-append (c ∷ more) end rest hl he)

length-drop : {A : Type 0} (n : ℕ) (xs : List A) → length (drop n xs) ≤ length xs
length-drop zero xs = omega arith
length-drop (suc n) [] = omega arith
length-drop (suc n) (x ∷ xs) = omega (arith, length-drop n xs)

-- The loop over `read` ends within its fuel: each round takes a byte at least.
trim_loop_total :
    (lib : Containers) (fuel : ℕ) (res : CStr) (file : List ℕ)
    → length file < fuel
    → (out : CStr) × (trim_loop lib fuel res file ≡ some out)
unfolding trim_loop
trim_loop_total lib zero res file h = absurd (omega arith)
trim_loop_total lib (suc fuel) res [] h = (res, refl)
trim_loop_total lib (suc fuel) res (b ∷ file) h =
    trim_loop_total lib fuel _ (drop 62 file) (omega (arith, length-drop 62 file))

pub read_trimmed_total :
    (lib : Containers) (res : CStr) (file : List ℕ)
    → (out : CStr) × (read_trimmed lib res file ≡ some out)
unfolding read_trimmed
read_trimmed_total lib res file = trim_loop_total lib (suc (length file)) res file (omega arith)

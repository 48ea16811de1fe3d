-- ===== src/Bridge/Vlan/Bitmap.antt =====
-- bridge.c: the id arrays. An array is read as the ids in front of its first 0.
use tsn.Base.{
  subst, ℕ, zero, suc, ◌≡◌, refl, ap, arith, List, [], ◌∷◌, ◌++◌, ◌==◌, if◌then◌else◌, length, take,
  replicate, Bool-cases, inl, inr,
}
use tsn.Bridge.Vlan.{vlan_bitmap_max, put_loop, put_id}

-- The ids in front of the first 0, where a reader stops.
unfoldable pub used : List ℕ → List ℕ
used [] = []
used (x ∷ bitmap) = if x == 0 then [] else x ∷ used bitmap

-- All ids of an array, wherever they stand.
unfoldable pub nonzero : List ℕ → List ℕ
nonzero [] = []
nonzero (x ∷ bitmap) = if x == 0 then nonzero bitmap else x ∷ nonzero bitmap

length-put_loop : (m : List ℕ) (id : ℕ) → length (put_loop (length m) m id) ≡ length m
unfolding put_loop
length-put_loop [] id = refl
length-put_loop (x ∷ m) id = ground (arith, length-put_loop m id)

used_of_empty : (m : List ℕ) → nonzero m ≡ [] → used m ≡ []
unfolding used nonzero
used_of_empty [] h = refl
used_of_empty (x ∷ m) h = ground arith

-- No gap opens: no id stands behind a 0.
put_loop-dense :
    (m : List ℕ) (id : ℕ)
    → nonzero m ≡ used m
    → nonzero (put_loop (length m) m id) ≡ used (put_loop (length m) m id)
unfolding used put_loop nonzero
put_loop-dense [] id h = refl
put_loop-dense (x ∷ m) id h = elim (Bool-cases (x == 0)) [
  | inl e ↦ let empty : nonzero m ≡ [] = rw e at h in rw e (ground (arith, used_of_empty m))
  | inr e ↦ rw e (rw e (ap (◌∷◌ x) (put_loop-dense m id (ground arith))))
]

take-nil {ℓ} : {A : Type ℓ} (n : ℕ) → take {A = A} n [] ≡ []
take-nil zero = refl
take-nil (suc n) = refl

-- An id goes behind those that are there, if it is not 0 and the array has room.
used-put_loop :
    (m : List ℕ) (id : ℕ)
    → nonzero m ≡ used m
    → used (put_loop (length m) m id) ≡ take (length m) (used m ++ nonzero (id ∷ []))
unfolding used put_loop nonzero
used-put_loop [] id h = refl
used-put_loop (x ∷ m) id h = elim (Bool-cases (x == 0)) [
  | inl e ↦
      let empty : nonzero m ≡ [] = rw e at h in
      rw e (ground (arith, used_of_empty m, take-nil {A = ℕ} (length m)))
  | inr e ↦ rw e (rw e (ap (◌∷◌ x) (used-put_loop m id (ground arith))))
]

-- The same of the whole loop, on an array of its size.
module _ (m : List ℕ) (id : ℕ) (size : length m ≡ vlan_bitmap_max) where
  pub length-put_id : length (put_id m id) ≡ length m
  unfolding put_id
  length-put_id = subst (λ n. length (put_loop n m id) ≡ length m) size (length-put_loop m id)

  pub put_id-dense : nonzero m ≡ used m → nonzero (put_id m id) ≡ used (put_id m id)
  unfolding put_id
  put_id-dense h =
      subst (λ n. nonzero (put_loop n m id) ≡ used (put_loop n m id)) size (put_loop-dense m id h)

  pub used-put_id :
      nonzero m ≡ used m → used (put_id m id) ≡ take (length m) (used m ++ nonzero (id ∷ []))
  unfolding put_id
  used-put_id h =
      subst (λ n. used (put_loop n m id) ≡ take (length m) (used m ++ nonzero (id ∷ []))) size
        (used-put_loop m id h)

-- A cleared array.
pub used-replicate :
    (n : ℕ)
    → (used (replicate n 0) ≡ [])
      × (nonzero (replicate n 0) ≡ [])
      × (length (replicate {A = ℕ} n 0) ≡ n)
unfolding used nonzero replicate
used-replicate zero = (refl, refl, refl)
used-replicate (suc n) = let (_, e, l) = used-replicate n in (refl, e, ap suc l)

pub take-take-append {ℓ} :
    {A : Type ℓ} (n : ℕ) (xs ys : List A) → take n (take n xs ++ ys) ≡ take n (xs ++ ys)
take-take-append zero xs ys = refl
take-take-append (suc n) [] ys = refl
take-take-append (suc n) (x ∷ xs) ys = ap (◌∷◌ x) (take-take-append n xs ys)

pub nonzero-append : (xs ys : List ℕ) → nonzero (xs ++ ys) ≡ nonzero xs ++ nonzero ys
unfolding nonzero
nonzero-append [] ys = refl
nonzero-append (x ∷ xs) ys = elim (Bool-cases (x == 0)) [
  | inl e ↦ rw e (nonzero-append xs ys)
  | inr e ↦ rw e (ap (◌∷◌ x) (nonzero-append xs ys))
]

pub take-used : (m : List ℕ) → take (length m) (used m) ≡ used m
unfolding used
take-used [] = refl
take-used (x ∷ m) = elim (Bool-cases (x == 0)) [
  | inl e ↦ rw e
  | inr e ↦ rw e (ap (◌∷◌ x) (take-used m))
]

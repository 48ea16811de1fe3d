-- ===== src/Interface/Names/Threads/Laws.antt =====
-- interface.c: what two threads may see of the set of names.
use tsn.Base.{subst, ◌≡◌, refl, sym, List, [], ◌∷◌, ◌++◌, CStr}
use tsn.Runtime.Containers.{Containers}
use tsn.Interface.Names.Threads.{
  Shared, null, raw, set, Pc, idle, missed, allocated, filling, returned, seen, broken, Move, miss,
  hit, hit_raw, store, init, add, add_raw, finish, read, read_raw, Moves, none_yet, then_move,
  System, by_statistics, by_oper_status, Reach, here, next, called, fill,
}

module _ (lib : Containers) (wanted : List CStr) where
  -- The system while the first thread fills the set.
  abbrev filling_at : Shared → Pc → System lib wanted
  filling_at m p = record { names = m; statistics = p; oper_status = idle }

  Reach-allocated : Reach lib wanted (called lib wanted null) (filling_at raw allocated)
  Reach-allocated = next (next here (by_statistics (miss refl))) (by_statistics store)

  Reach-filling : Reach lib wanted (called lib wanted null) (filling_at (set []) (filling wanted))
  Reach-filling = next Reach-allocated (by_statistics init)

  Reach-filled :
      (names done rest : List CStr)
      → Reach lib wanted (called lib wanted null) (filling_at (set names) (filling (done ++ rest)))
      → Reach lib wanted
          (called lib wanted null)
          (filling_at (set (fill lib names done)) (filling rest))
  Reach-filled names [] rest r = r
  Reach-filled names (name ∷ done) rest r =
      Reach-filled (lib.sset_add names name) done rest (next r (by_statistics (add refl)))

  -- Where both providers are called before the names are known, one thread may see any part of the
  -- names that the other has added so far, while it adds the rest; and it may use the memory of the
  -- set before that is initialised.
  pub names_race :
      (done rest : List CStr)
      → wanted ≡ done ++ rest
      → ((s : System lib wanted) × Reach lib wanted (called lib wanted null) s
          × (s.oper_status ≡ seen (fill lib [] done))
          × (s.statistics ≡ filling rest))
        × ((s : System lib wanted) × Reach lib wanted (called lib wanted null) s
            × (s.oper_status ≡ broken))
  names_race done rest e =
      let start = Reach-filled [] done rest (rw (← e) Reach-filling) in
      (
        (_, next (next start (by_oper_status (hit refl))) (by_oper_status (read refl)), refl, refl),
        (
          _,
          next (next Reach-allocated (by_oper_status (hit_raw refl)))
              (by_oper_status (read_raw refl)),
          refl,
        ),
      )

-- A thread that finds a complete set: it has seen all of it, or nothing yet.
abbrev pub IsServed : List CStr → Pc → Type 0
IsServed all idle = Unit
IsServed all returned = Unit
IsServed all (seen names) = names ≡ all
IsServed all _ = ⊥

-- A thread that has seen nothing but the complete set, and used nothing but a set.
abbrev pub IsSound : List CStr → Pc → Type 0
IsSound all (seen names) = names ≡ all
IsSound all broken = ⊥
IsSound all _ = Unit

-- A thread that Fills the set, with no other thread between: where it stands, and what the static
-- variable is then.
abbrev IsFilling : (lib : Containers) → List CStr → Shared → Pc → Type 0
IsFilling lib all null idle = Unit
IsFilling lib all null missed = Unit
IsFilling lib all raw allocated = Unit
IsFilling lib all (set names) (filling rest) = fill lib names rest ≡ all
IsFilling lib all (set names) returned = names ≡ all
IsFilling lib all (set names) (seen found) = (names ≡ all) × (found ≡ all)
IsFilling lib all _ _ = ⊥

module _ (lib : Containers) (wanted : List CStr) where
  Move-IsServed :
      (all : List CStr) {m m' : Shared} {p p' : Pc}
      → Move lib wanted m p m' p'
      → m ≡ set all
      → IsServed all p
      → (m' ≡ set all) × IsServed all p'
  Move-IsServed all (miss e) h k = cc
  Move-IsServed all (hit_raw e) h k = cc
  Move-IsServed all (hit e) h k = (h, tt)
  Move-IsServed all store h k = absurd k
  Move-IsServed all init h k = absurd k
  Move-IsServed all (add e) h k = absurd k
  Move-IsServed all (add_raw e) h k = absurd k
  Move-IsServed all finish h k = absurd k
  Move-IsServed all (read e) h k = (h, cc)
  Move-IsServed all (read_raw e) h k = cc

  -- Where the set is complete before the providers are called, both threads see all of it, in every
  -- interleaving: no thread is anywhere else in the function, and the set stays as it is.
  pub names_filled :
      (all : List CStr) {s : System lib wanted}
      → Reach lib wanted (called lib wanted (set all)) s
      → (s.names ≡ set all) × IsServed all s.statistics × IsServed all s.oper_status
  names_filled all here = (refl, tt, tt)
  names_filled all (next r (by_statistics mv)) =
      let (h, first, second) = names_filled all r in
      let (h', first') = Move-IsServed all mv h first in (h', first', second)
  names_filled all (next r (by_oper_status mv)) =
      let (h, first, second) = names_filled all r in
      let (h', second') = Move-IsServed all mv h second in (h', first, second')

  abbrev Fills : Shared → Pc → Type 0
  Fills = IsFilling lib (fill lib [] wanted)

  -- The static variable, where its value is known.
  known : {m k : Shared} (p : Pc) → m ≡ k → Fills m p → Fills k p
  known p e h = subst (λ x. Fills x p) e h

  finish-IsFilling : (m : Shared) → Fills m (filling []) → Fills m returned
  finish-IsFilling null h = elim h [ ]
  finish-IsFilling raw h = elim h [ ]
  finish-IsFilling (set names) h = h

  Move-IsFilling : {m m' : Shared} {p p' : Pc} → Move lib wanted m p m' p' → Fills m p → Fills m' p'
  Move-IsFilling (miss e) h = known missed (sym e) tt
  Move-IsFilling (hit_raw e) h = absurd (known idle e h)
  Move-IsFilling (hit e) h = absurd (known idle e h)
  Move-IsFilling store h = tt
  Move-IsFilling init h = refl
  Move-IsFilling (add {name} {rest = rest} e) h = known (filling (name ∷ rest)) e h
  Move-IsFilling (add_raw {name} {rest} e) h = absurd (known (filling (name ∷ rest)) e h)
  Move-IsFilling {m} finish h = finish-IsFilling m h
  Move-IsFilling (read {names} e) h =
      let complete = known returned e h in known (seen names) (sym e) (complete, complete)
  Move-IsFilling (read_raw e) h = absurd (known returned e h)

  Moves-IsFilling : {m : Shared} {p : Pc} → Moves lib wanted null idle m p → Fills m p
  Moves-IsFilling none_yet = tt
  Moves-IsFilling (then_move r mv) = Move-IsFilling mv (Moves-IsFilling r)

  IsFilling-IsSound : (m : Shared) (p : Pc) → Fills m p → IsSound (fill lib [] wanted) p
  IsFilling-IsSound (set names) (seen found) h = h.1
  IsFilling-IsSound null (seen found) h = elim h [ ]
  IsFilling-IsSound raw (seen found) h = elim h [ ]
  IsFilling-IsSound null broken h = elim h [ ]
  IsFilling-IsSound raw broken h = elim h [ ]
  IsFilling-IsSound (set names) broken h = elim h [ ]
  IsFilling-IsSound m idle h = tt
  IsFilling-IsSound m missed h = tt
  IsFilling-IsSound m allocated h = tt
  IsFilling-IsSound m (filling rest) h = tt
  IsFilling-IsSound m returned h = tt

  -- Where no other thread moves, a thread that finds NULL sees all of the names once it reads the
  -- set, and it never uses memory that is no set.
  names_alone :
      {m : Shared} {p : Pc} → Moves lib wanted null idle m p → IsSound (fill lib [] wanted) p
  names_alone {m} {p} r = IsFilling-IsSound m p (Moves-IsFilling r)

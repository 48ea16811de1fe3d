-- ===== src/Interface/Names/Threads.antt =====
-- interface.c, get_interface_names, as two threads run it: main.c subscribes the two providers of
-- interfaces with a subscription each, and sysrepo serves each subscription from a thread of its
-- own. A move is one access of a thread to the static variable or to the set behind it. A caller
-- reads the set through the pointer that it was given, here through the variable: the two differ
-- only in runs in which both threads have read NULL.
pub mod Laws
use tsn.Base.{◌≡◌, List, [], ◌∷◌, CStr}
use tsn.Runtime.Containers.{Containers}

-- The static variable `interface_names`: NULL, a pointer to memory that `sset_init` has not reached
-- yet, or to a set.
pub data Shared : Type 0 where
  null : Shared
  raw : Shared
  set : List CStr → Shared

-- Where a thread stands in the function, and in its caller's loop over the set.
pub data Pc : Type 0 where
  idle : Pc
  -- It has read NULL, and has stored the new pointer.
  missed : Pc
  allocated : Pc
  -- It adds these names still.
  filling : List CStr → Pc
  -- It has the pointer, and has read the set through it.
  returned : Pc
  seen : List CStr → Pc
  -- It has used memory that is no set.
  broken : Pc

module _ (lib : Containers) (wanted : List CStr) where
  -- The moves of one thread. `wanted` are the names that pass the tests of the loop, in order.
  pub data Move (m : Shared) : Pc → Shared → Pc → Type 0 where
    miss : m ≡ null → Move m idle m missed
    hit_raw : m ≡ raw → Move m idle m returned
    hit : {names : List CStr} → m ≡ set names → Move m idle m returned
    store : Move m missed raw allocated
    init : Move m allocated (set []) (filling wanted)
    add :
        {name : CStr} {names rest : List CStr}
        → m ≡ set names
        → Move m (filling (name ∷ rest)) (set (lib.sset_add names name)) (filling rest)
    add_raw : {name : CStr} {rest : List CStr} → m ≡ raw → Move m (filling (name ∷ rest)) m broken
    finish : Move m (filling []) m returned
    read : {names : List CStr} → m ≡ set names → Move m returned m (seen names)
    read_raw : m ≡ raw → Move m returned m broken

  -- Moves of one thread, with no move of another between them.
  pub data Moves (m : Shared) (p : Pc) : Shared → Pc → Type 0 where
    none_yet : Moves m p m p
    then_move :
        {m' m'' : Shared} {p' p'' : Pc} → Moves m p m' p' → Move m' p' m'' p'' → Moves m p m'' p''

  -- The thread of interface_statistics_provider and that of interface_oper_status_provider.
  pub record System : Type 0 where
    pub names : Shared
    pub statistics : Pc
    pub oper_status : Pc

  pub data Step (s : System) : System → Type 0 where
    by_statistics :
        {m : Shared} {p : Pc}
        → Move s.names s.statistics m p
        → Step s (record s { names = m; statistics = p })
    by_oper_status :
        {m : Shared} {p : Pc}
        → Move s.names s.oper_status m p
        → Step s (record s { names = m; oper_status = p })

  -- What a run from `s` reaches.
  pub data Reach (s : System) : System → Type 0 where
    here : Reach s s
    next : {t u : System} → Reach s t → Step t u → Reach s u

  -- Both providers are called at once, with this in the static variable.
  abbrev pub called : Shared → System
  called m = record { names = m; statistics = idle; oper_status = idle }

-- The set after some names are added.
abbrev pub fill : Containers → List CStr → List CStr → List CStr
fill lib names [] = names
fill lib names (name ∷ rest) = fill lib (lib.sset_add names name) rest

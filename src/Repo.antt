-- ===== src/Repo.antt =====
-- repo.c and repo.h: the clearing of the interfaces in sysrepo, and the list of actions that is
-- not used yet.
pub mod Laws
use tsn.Base.{List, [], CStr, text}
use tsn.Runtime.{M, Val, run, ◌>>=◌, ◌>>◌, sr_delete_item, sr_apply_changes}

-- `action_type_t`.
pub data ActionType : Type 0 where
  delete_item set_item : ActionType

-- `action_t`.
pub record Action : Type 0 where
  pub kind : ActionType
  pub path : CStr
  pub val : Val

-- A mutex of the threads' library, and what `pthread_mutex_init` makes.
pub record Pthread : Type 1 where
  pub Mutex : Type 0
  pub pthread_mutex_init : Mutex

-- `oper_actions_t`.
pub record OperActions (pthread : Pthread) : Type 0 where
  pub mutex : pthread.Mutex
  pub actions : List Action

unfoldable pub oper_actions_init : (pthread : Pthread) → OperActions pthread
oper_actions_init pthread = record { mutex = pthread.pthread_mutex_init; actions = [] }

-- Both failures are only logged.
unfoldable pub clear_sysrepo : M (Unit {0})
clear_sysrepo = do run (sr_delete_item (text "/ietf-interfaces:interfaces")); run sr_apply_changes

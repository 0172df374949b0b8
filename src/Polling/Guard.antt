-- ===== src/Polling/Guard.antt =====
-- The guard `_single_poll` of app/scheduler/hub_scheduler.py, which every start of a polling loop goes
-- through. A coroutine is not interrupted between its test of the guard and its entry: that is one step.
pub mod Single
use map_service_hub.Base.{
  ℕ, zero, suc, ◌+◌, ◌≡◌, Bool, true, false, not, ◌&&◌, List, [], ◌∷◌, String, str_eq,
  if◌then◌else◌, filter_by, any_by, In,
}

-- `_polling_active`, and the names of the decorated coroutines whose body is being run
pub record Guard : Type 0 where
  pub polling_active : List String
  pub bodies : List String

abbrev pub is_in : String → List String → Bool
is_in name names = any_by (λ n. str_eq n name) names

-- `set.discard`
abbrev pub discard : String → List String → List String
discard name names = filter_by (λ n. not (str_eq n name)) names

-- one run of the name leaves its body
abbrev pub remove_one : String → List String → List String
remove_one name [] = []
remove_one name (n ∷ ns) = if str_eq n name then ns else n ∷ remove_one name ns

-- the guard at the process's start
abbrev pub no_polls : Guard
no_polls = record { polling_active = []; bodies = [] }

-- the entry of `run`: whether the body starts
unfoldable pub enter : String → Guard → Bool × Guard
enter name g =
    if is_in name g.polling_active
    then (false, g)
    else (true, record { polling_active = name ∷ g.polling_active; bodies = name ∷ g.bodies })

-- the `finally` of `run`, after a return, an exception or a cancellation of the body
unfoldable pub leave : String → Guard → Guard
leave name g = record {
  polling_active = discard name g.polling_active;
  bodies = remove_one name g.bodies;
}

-- one step of the event loop that touches the guard
pub data Step : Guard → Guard → Type 0 where
  calls : (name : String) (g : Guard) → Step g (enter name g).1
  ends : (name : String) (g : Guard) → In name g.bodies → Step g (leave name g)

pub data Reachable : Guard → Type 0 where
  at_start : Reachable no_polls
  after : (g h : Guard) → Reachable g → Step g h → Reachable h

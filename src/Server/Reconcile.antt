-- ===== src/Server/Reconcile.antt =====
-- One pass of the reconciler: `reconcile`, `runAction` and the end of an action, in
-- internal/server/reconcile.go. What an action does to the process happens later, on its own
-- goroutine: a pass returns the actions that it launches. A pass takes its locks for each program
-- anew and drops them in between, so what a visit finds is an argument.
pub mod Visits
pub mod Decisions
use supavisor.Prelude.{
  ◌≡◌, refl, Bool, true, false, not, ◌&&◌, ◌||◌, Option, none, some, List, [], ◌∷◌, ◌++◌,
  if◌then◌else◌, Str, lookup, insert, delete, arith,
}
use supavisor.Process.{Process, State, stopped, stopping, state_eq}
use supavisor.Server.{
  Server, DesiredState, desired_running, desired_stopped, Reason, note_blocked,
  dependencies_satisfied, request_reconcile,
}
use supavisor.Server.Names.{program_names}

pub data ActionKind : Type 0 where
  start_action stop_action : ActionKind

abbrev pub Launched : Type 0
Launched = List (Str × ActionKind)

unfoldable pub run_action : Str → ActionKind → Server → Server × Launched
run_action name kind s = (record s { inflight = insert name true s.inflight }, (name, kind) ∷ [])

-- The deferred end of an action's goroutine.
unfoldable pub action_done : Str → Server → Server
unfolding request_reconcile
action_done name s = request_reconcile (record s { inflight = delete name s.inflight })

abbrev pub is_busy : Option Bool → Bool
is_busy none = false
is_busy (some b) = b

-- What the visit of a program finds, one after the other: the server under the first lock, what the
-- process that it took there answers to `GetState`, what the check of the dependencies finds, each at
-- its own moment, and the server that the reason is noted in and the action is taken for.
pub record Visit : Type 0 where
  pub found : Server
  pub state : State
  pub checked : Server
  pub acted : Server

abbrev start_if : Str → Option Reason → Server → Server × Launched
start_if name none s = run_action name start_action (note_blocked name none s)
start_if name (some reason) s = (note_blocked name (some reason) s, [])

-- The switch, with the state that was answered, the server that the dependencies are checked on and
-- the one that is acted on. A program with no entry has the empty desired state, and neither case
-- is taken.
unfoldable pub reconcile_process :
    Str → Option DesiredState → State → Server → Server → Server × Launched
reconcile_process name (some desired_running) state checked s =
    if state_eq state stopped
    then start_if name (dependencies_satisfied checked name) s
    else (s, [])
reconcile_process name (some desired_stopped) state checked s =
    if state_eq state stopped || state_eq state stopping
    then (s, [])
    else run_action name stop_action s
reconcile_process name none state checked s = (s, [])

abbrev reconcile_found : Str → Bool → Option Process → Visit → Server × Launched
reconcile_found name true p v = (v.acted, [])
reconcile_found name false none v = (v.acted, [])
reconcile_found name false (some p) v =
    reconcile_process name (lookup name v.found.desired) v.state v.checked v.acted

unfoldable pub reconcile_one : Str → Visit → Server × Launched
reconcile_one name v =
    reconcile_found name (is_busy (lookup name v.found.inflight)) (lookup name v.found.processes) v

unfoldable pub reconcile_all : (Str → Visit) → List Str → Launched
reconcile_all visits [] = []
reconcile_all visits (name ∷ names) =
    (reconcile_one name (visits name)).1 ++ reconcile_all visits names

-- A pass that begins at the server `s`. Each program is visited at most once.
unfoldable pub reconcile : (Str → Visit) → Server → Launched
reconcile visits s = reconcile_all visits (program_names s)

abbrev state_of : Option Process → State
state_of none = stopped
state_of (some p) = p.state

-- The visits of a pass during which nothing else happens to what it reads.
abbrev pub undisturbed : Server → Str → Visit
undisturbed s name = record {
  found = s;
  state = state_of (lookup name s.processes);
  checked = s;
  acted = s;
}

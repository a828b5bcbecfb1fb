-- ===== src/Server.antt =====
-- The daemon's view of its programs: the record of internal/server/server.go and the small
-- operations on it in server.go and reconcile.go. Reasons are data; their texts are not modelled.
-- A channel of capacity one that asks for a pass or a write is a flag.
pub mod Names
pub mod Reconcile
pub mod Reload
pub mod Orphans
pub mod Blocking
pub mod Requests
pub mod Shutdown
pub mod Daemon
pub mod Status
pub mod Ipc
pub mod Connections
pub mod Pidlock
pub mod Restart
use supavisor.Prelude.{
  ℕ, zero, suc, ◌+◌, ◌≡◌, refl, Bool, true, false, not, ◌&&◌, ◌||◌, Option, none, some, List, [],
  ◌∷◌, ◌++◌, if◌then◌else◌, Str, str_eq, Dict, lookup, insert, delete, is_empty, arith,
}
use supavisor.Prelude.Int.{ℤ, pos, negsuc}
use supavisor.Config.{
  Config, ProgramConfig, Dependency, DependencyCondition, condition_started, condition_healthy,
  condition_completed, RestartPolicy, restart_never, restart_unexpected, restart_always,
}
use supavisor.Process.{
  Process, State, Health, stopped, running, exited, fatal, health_healthy, state_eq, health_eq,
  new_process,
}

pub data DesiredState : Type 0 where
  desired_running desired_stopped : DesiredState

-- Why a program cannot start yet.
pub data Reason : Type 0 where
  not_configured : (dep : Str) → Reason
  not_completed : (dep : Str) (state : State) → Reason
  not_running : (dep : Str) (state : State) → Reason
  not_healthy : (dep : Str) (health : Health) → Reason

pub record Server : Type 0 where
  pub config : Config
  pub processes : Dict Process
  pub desired : Dict DesiredState
  pub inflight : Dict Bool
  pub blocked_reason : Dict Reason
  pub reconcile_now : Bool
  pub state_dirty : Bool

unfoldable pub request_reconcile : Server → Server
request_reconcile s = record s { reconcile_now = true }

unfoldable pub mark_state_dirty : Server → Server
mark_state_dirty s = record s { state_dirty = true }

-- `none` is the empty reason.
unfoldable pub note_blocked : Str → Option Reason → Server → Server
note_blocked name none s = record s { blocked_reason = delete name s.blocked_reason }
note_blocked name (some reason) s = record s {
  blocked_reason = insert name reason s.blocked_reason;
}

abbrev pub depends_on_of : Option ProgramConfig → List Dependency
depends_on_of none = []
depends_on_of (some prog) = prog.depends_on

unfoldable pub dependencies_of : Server → Str → List Dependency
dependencies_of s name = depends_on_of (lookup name s.config.programs)

-- The body of the loop of `dependenciesSatisfied`, by the condition that is waited for.
unfoldable pub check_condition : Str → DependencyCondition → Process → Option Reason
check_condition dep condition_completed p =
    if p.completed then none else some (not_completed dep p.state)
check_condition dep condition_started p =
    if state_eq p.state running then none else some (not_running dep p.state)
check_condition dep condition_healthy p =
    if state_eq p.state running
    then if health_eq p.health health_healthy then none else some (not_healthy dep p.health)
    else some (not_running dep p.state)

abbrev check_process : Dependency → Option Process → Option Reason
check_process dep none = some (not_configured dep.name)
check_process dep (some p) = check_condition dep.name dep.condition p

abbrev first_reason : Option Reason → Option Reason → Option Reason
first_reason none later = later
first_reason (some r) later = some r

unfoldable pub unsatisfied : Server → List Dependency → Option Reason
unsatisfied s [] = none
unsatisfied s (dep ∷ deps) =
    first_reason (check_process dep (lookup dep.name s.processes)) (unsatisfied s deps)

-- `none` is that they are satisfied.
unfoldable pub dependencies_satisfied : Server → Str → Option Reason
dependencies_satisfied s name = unsatisfied s (dependencies_of s name)

pub data ServerError : Type 0 where
  process_not_found : (name : Str) → ServerError

abbrev forget_if_stopped : Str → DesiredState → Dict Reason → Dict Reason
forget_if_stopped name desired_stopped reasons = delete name reasons
forget_if_stopped name desired_running reasons = reasons

unfoldable pub set_desired : Str → DesiredState → Server → Server × Option ServerError
set_desired name desired s = elim (lookup name s.processes) [
  | none ↦ (s, some (process_not_found name))
  | some p ↦ (
    record s {
      desired = insert name desired s.desired;
      blocked_reason = forget_if_stopped name desired s.blocked_reason;
    },
    none,
  )
]

unfoldable pub wants_to_run : Server → Str → Bool
wants_to_run s name = elim (lookup name s.desired) [
  | some desired_running ↦ true
  | some desired_stopped ↦ false
  | none ↦ false
]

unfoldable pub autorestart_policy : Server → Str → Option RestartPolicy
autorestart_policy s name = elim (lookup name s.config.programs) [
  | none ↦ none
  | some prog ↦ some prog.autorestart
]

-- `exitedForGood`
unfoldable pub exited_for_good : Server → Str → State → Bool
exited_for_good s name state =
    state_eq state exited
    && elim (autorestart_policy s name) [ some restart_never ↦ true | _ ↦ false ]

-- Why a program is not running, for the status: `notRunningReason` and `exitedReason`.
pub data StatusReason : Type 0 where
  no_reason : StatusReason
  blocked_by : Reason → StatusReason
  gave_up_after : (restarts : ℕ) → StatusReason
  exited_under_never : (code : ℤ) → StatusReason
  exited_cleanly : StatusReason
  exited_with_status : (code : ℤ) → StatusReason

unfoldable pub exited_reason : Option RestartPolicy → ℤ → StatusReason
exited_reason (some restart_never) code = exited_under_never code
exited_reason (some restart_unexpected) (pos zero) = exited_cleanly
exited_reason _ code = exited_with_status code

unfoldable pub not_running_reason : Server → Str → Process → StatusReason
not_running_reason s name p = elim (lookup name s.blocked_reason) [
  | some reason ↦ blocked_by reason
  | none ↦
      if state_eq p.state fatal
      then gave_up_after p.restart_count
      else if state_eq p.state exited
      then exited_reason (autorestart_policy s name) p.exit_code
      else no_reason
]

-- ===== src/Server/Blocking.antt =====
-- Whether a program can still come up: `blockedIndefinitely` and `blockedByDependency` of
-- internal/server/reconcile.go. The recursion has fuel; the map of the names that were seen, which
-- all calls share, is passed on as a list.
pub mod Search
pub mod Chains
pub mod Answer
use supavisor.Prelude.{
  ℕ, zero, suc, ◌+◌, Bool, true, false, ◌&&◌, Option, none, some, List, [], ◌∷◌, length,
  if◌then◌else◌, Str, contains, lookup,
}
use supavisor.Prelude.Int.{ℤ}
use supavisor.Config.{
  Dependency, DependencyCondition, condition_started, condition_healthy, condition_completed,
}
use supavisor.Process.{Process, running, fatal, state_eq, is_stopped}
use supavisor.Server.{
  Server, DesiredState, desired_running, desired_stopped, dependencies_of, exited_for_good,
}

pub data BlockReason : Type 0 where
  missing : (dep : Str) → BlockReason
  gave_up : (dep : Str) → BlockReason
  not_set_to_start : (dep : Str) → BlockReason
  will_not_run_again : (dep : Str) (code : ℤ) → BlockReason

-- What the body of the loop makes of one dependency.
pub data Prospect : Type 0 where
  no_obstacle look_deeper : Prospect
  obstacle : BlockReason → Prospect

abbrev waits_for_completion : DependencyCondition → Bool
waits_for_completion condition_completed = true
waits_for_completion condition_started = false
waits_for_completion condition_healthy = false

abbrev is_unwanted : Option DesiredState → Bool
is_unwanted (some desired_stopped) = true
is_unwanted (some desired_running) = false
is_unwanted none = false

unfoldable pub prospect_of : Server → Dependency → Process → Prospect
prospect_of s dep p =
    let waits = waits_for_completion dep.condition in
    if waits && p.completed
    then no_obstacle
    else if state_eq p.state fatal
    then obstacle (gave_up dep.name)
    else if is_unwanted (lookup dep.name s.desired) && is_stopped p.state
    then obstacle (not_set_to_start dep.name)
    else if waits && exited_for_good s dep.name p.state
    then obstacle (will_not_run_again dep.name p.exit_code)
    else if state_eq p.state running
    then no_obstacle
    else look_deeper

unfoldable pub prospect : Server → Dependency → Prospect
prospect s dep = elim (lookup dep.name s.processes) [
  | none ↦ obstacle (missing dep.name)
  | some p ↦ prospect_of s dep p
]

-- The names seen and the reason, if there is one; `none` is that the fuel ran out.
abbrev pub Found : Type 0
Found = Option (List Str × Option BlockReason)

abbrev pub go_on : Found → (List Str → Found) → Found
go_on none later = none
go_on (some (seen, some r)) later = some (seen, some r)
go_on (some (seen, none)) later = later seen

-- The loop; `deeper` is the recursive call.
unfoldable pub walk : (Str → List Str → Found) → Server → List Dependency → List Str → Found
walk deeper s [] seen = some (seen, none)
walk deeper s (dep ∷ deps) seen = elim (prospect s dep) [
  | no_obstacle ↦ walk deeper s deps seen
  | look_deeper ↦ go_on (deeper dep.name seen) (walk deeper s deps)
  | obstacle r ↦ some (seen, some r)
]

unfoldable pub blocked_by_dependency : ℕ → Server → Str → List Str → Found
blocked_by_dependency zero s name seen = none
blocked_by_dependency (suc fuel) s name seen =
    if contains seen name
    then some (seen, none)
    else walk (blocked_by_dependency fuel s) s (dependencies_of s name) (name ∷ seen)

unfoldable pub blocked_indefinitely : Server → Str → Found
blocked_indefinitely s name = blocked_by_dependency (2 + length s.processes) s name []

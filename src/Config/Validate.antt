-- ===== src/Config/Validate.antt =====
-- What internal/config/config.go rejects in a whole configuration, `Validate`.
pub mod Accepted
pub mod LogFiles
use supavisor.Prelude.{
  zero, suc, contains, ℕ, ◌+◌, Bool, true, false, leb, Option, none, some, List, [], ◌∷◌, length,
  if◌then◌else◌, Str, str_eq, is_empty, sort, Dict, lookup, insert, keys,
}
use supavisor.Config.{
  dependency_names, Config, ProgramConfig, SupavisorConfig, HealthCheck, Dependency,
  DependencyCondition, condition_started, condition_healthy, condition_completed, RestartPolicy,
  restart_always, restart_never, restart_unexpected,
}
use supavisor.Config.Circular.{Search, Checked, validate_circular}
use supavisor.Config.Result.{
  ok, err, Result, ◌>>=◌, ◌>>◌, guard, unknown_dependency, no_health_check, never_completes,
  shared_log, socket_too_long,
}

unfoldable pub sorted_program_names : Dict ProgramConfig → List Str
sorted_program_names programs = sort (keys programs)

abbrev pub has_check : Option HealthCheck → Bool
has_check none = false
has_check (some check) = true

abbrev pub ends_for_good : RestartPolicy → Bool
ends_for_good restart_always = false
ends_for_good restart_never = true
ends_for_good restart_unexpected = true

-- Whether the target can reach the condition that it is waited on for.
abbrev pub check_reachable :
    Str → Dependency → DependencyCondition → ProgramConfig → Result (Unit {0})
check_reachable name dep condition_started target = ok tt
check_reachable name dep condition_healthy target =
    guard (has_check target.health_check) (no_health_check name dep.name)
check_reachable name dep condition_completed target =
    guard (ends_for_good target.autorestart) (never_completes name dep.name)

abbrev pub check_target : Str → Dependency → Option ProgramConfig → Result (Unit {0})
check_target name dep none = err (unknown_dependency name dep.name)
check_target name dep (some target) = check_reachable name dep dep.condition target

unfoldable pub check_dependencies : Dict ProgramConfig → Str → List Dependency → Result (Unit {0})
check_dependencies programs name [] = ok tt
check_dependencies programs name (dep ∷ deps) =
    check_target name dep (lookup dep.name programs) >> check_dependencies programs name deps

abbrev pub dependencies_in : Option ProgramConfig → List Dependency
dependencies_in none = []
dependencies_in (some prog) = prog.depends_on

-- The loop over the names, which are keys of the map.
unfoldable pub check_programs : Dict ProgramConfig → List Str → Result (Unit {0})
check_programs programs [] = ok tt
check_programs programs (name ∷ names) =
    check_dependencies programs name (dependencies_in (lookup name programs))
    >> check_programs programs names

unfoldable pub validate_dependencies : Config → Result (Unit {0})
validate_dependencies cfg = check_programs cfg.programs (sorted_program_names cfg.programs)

abbrev pub claim_owned : Str → Str → Dict Str → Option Str → Result (Dict Str)
claim_owned name path owners none = ok (insert path name owners)
claim_owned name path owners (some owner) =
    if str_eq owner name then ok (insert path name owners) else err (shared_log owner name path)

-- The body of the loop over the two paths of a program.
unfoldable pub claim_path : Str → Str → Dict Str → Result (Dict Str)
claim_path name path owners =
    if is_empty path then ok owners else claim_owned name path owners (lookup path owners)

abbrev pub claim_paths : Str → Option ProgramConfig → Dict Str → Result (Dict Str)
claim_paths name none owners = ok owners
claim_paths name (some prog) owners =
    claim_path name prog.stdout_logfile owners >>= claim_path name prog.stderr_logfile

unfoldable pub claim_all : Dict ProgramConfig → List Str → Dict Str → Result (Dict Str)
claim_all programs [] owners = ok owners
claim_all programs (name ∷ names) owners =
    claim_paths name (lookup name programs) owners >>= claim_all programs names

unfoldable pub validate_log_paths : Config → Result (Unit {0})
validate_log_paths cfg =
    claim_all cfg.programs (sorted_program_names cfg.programs) [] >>= λ owners. ok tt

abbrev max_socket_path_len : ℕ
max_socket_path_len = 104

unfoldable pub validate_socket_path : Config → Result (Unit {0})
validate_socket_path cfg =
    let socket = cfg.supavisor.socket in
    if leb max_socket_path_len (length socket) then err (socket_too_long socket) else ok tt

abbrev pub after_circular : Checked → Result (Unit {0}) → Option (Result (Unit {0}))
after_circular none rest = none
after_circular (some (err e)) rest = some (err e)
after_circular (some (ok s)) rest = some rest

unfoldable pub validate : Config → Option (Result (Unit {0}))
validate cfg =
    after_circular (validate_circular cfg)
      (validate_dependencies cfg >> (validate_log_paths cfg >> validate_socket_path cfg))

-- ===== src/Server/Daemon.antt =====
-- Making the server and reloading it: `New` of internal/server/server.go, and `Reload` of reload.go
-- up to and from its wait for the programs that have to stop. What `ParseConfig` returns and whether
-- a directory can be made are arguments.
pub mod Fitting
pub mod Replaced
pub mod Checks
pub mod Worlds
pub mod Stopping
pub mod Answers
use supavisor.Prelude.{
  Bool, true, false, Option, none, some, List, [], ◌∷◌, ◌++◌, Str, Dict, insert, is_empty,
  if◌then◌else◌,
}
use supavisor.Config.{Config, ProgramConfig}
use supavisor.Config.Result.{ConfigError, Result, ok, err}
use supavisor.Config.Directories.{ensure_log_directories}
use supavisor.Config.Validate.{validate}
use supavisor.Process.{Process, new_process}
use supavisor.Graph.{Ordered, in_order, circular, no_fuel, topological_sort}
use supavisor.Server.{
  Server, DesiredState, desired_stopped, set_desired, request_reconcile, mark_state_dirty,
}
use supavisor.Server.Reload.{
  Diff, diff_programs, changed_daemon_setting, stop_for_reload, autostart_state, apply_programs,
}
use supavisor.Server.Shutdown.{build_dependency_graph}

pub data DaemonError : Type 0 where
  invalid_configuration : ConfigError → DaemonError
  no_log_directory : (dir : Str) → DaemonError
  circular_graph : DaemonError
  no_configuration_file : DaemonError
  unread_configuration : ConfigError → DaemonError
  fixed_setting : Str → DaemonError

-- `stuck` is that the fuel of a search ran out.
pub data Outcome (A : Type 0) : Type 0 where
  done : A → Outcome A
  refused : DaemonError → Outcome A
  stuck : Outcome A

module _ {A : Type 0} where
  abbrev pub if_valid : Option (Result (Unit {0})) → Outcome A → Outcome A
  if_valid none next = stuck
  if_valid (some (err e)) next = refused (invalid_configuration e)
  if_valid (some (ok u)) next = next

  abbrev pub if_ordered : Ordered (List Str) → Outcome A → Outcome A
  if_ordered (in_order names) next = next
  if_ordered circular next = refused circular_graph
  if_ordered no_fuel next = stuck

  abbrev pub if_made : Option Str → Outcome A → Outcome A
  if_made none next = next
  if_made (some dir) next = refused (no_log_directory dir)

  abbrev pub if_unset : Option Str → Outcome A → Outcome A
  if_unset none next = next
  if_unset (some setting) next = refused (fixed_setting setting)

  abbrev pub if_read : Result Config → (Config → Outcome A) → Outcome A
  if_read (ok cfg) next = next cfg
  if_read (err e) next = refused (unread_configuration e)

-- The loop that gives each program a process and a desired state.
unfoldable pub populate : Dict ProgramConfig → Server → Server
populate [] s = s
populate ((name, prog) ∷ programs) s = populate programs (record s {
  processes = insert name (new_process prog) s.processes;
  desired = insert name (autostart_state prog.autostart) s.desired;
})

abbrev pub blank_server : Config → Server
blank_server cfg = record {
  config = cfg;
  processes = [];
  desired = [];
  inflight = [];
  blocked_reason = [];
  reconcile_now = false;
  state_dirty = false;
}

unfoldable pub new_server : (Str → Bool) → Config → Outcome Server
new_server make cfg = if_valid (validate cfg) (
    if_made (ensure_log_directories make cfg) (
      if_ordered (topological_sort (build_dependency_graph cfg.programs))
        (done (populate cfg.programs (blank_server cfg)))))

-- What a reload keeps while it waits.
pub record Reloading : Type 0 where
  pub config : Config
  pub diff : Diff
  pub previous : Dict DesiredState

-- `Empty` of the response.
unfoldable pub nothing_changed : Diff → Bool
nothing_changed d =
    if is_nil d.added then if is_nil d.removed then is_nil d.changed else false else false
  where
    is_nil : List Str → Bool
    is_nil [] = true
    is_nil (name ∷ names) = false

-- The plan of a reload and, unless it is empty, what it keeps and the server as the wait begins.
abbrev pub Planned : Type 0
Planned = Diff × Option (Reloading × Server)

module _ (deep_equal : ProgramConfig → ProgramConfig → Bool) where
  abbrev pub begin_plan : Config → Diff → Server → Planned
  begin_plan cfg diff s = if nothing_changed diff then (diff, none) else (
    diff,
    some (
      record { config = cfg; diff = diff; previous = s.desired },
      stop_for_reload (diff.removed ++ diff.changed) s,
    ),
  )

  unfoldable pub reload_begin : (Str → Bool) → Result Config → Server → Outcome Planned
  reload_begin make parsed s =
      if is_empty s.config.source_path
      then refused no_configuration_file
      else if_read parsed (λ cfg. if_valid (validate cfg) (
          if_ordered (topological_sort (build_dependency_graph cfg.programs)) (
            if_unset (changed_daemon_setting s.config.supavisor cfg.supavisor) (
              if_made (ensure_log_directories make cfg) (
                done
                  (begin_plan cfg (diff_programs deep_equal s.config.programs cfg.programs) s))))))

-- From the end of the wait.
unfoldable pub reload_end : Reloading → Server → Server
reload_end r s = mark_state_dirty (request_reconcile (apply_programs r.config r.previous r.diff s))

-- The callbacks of the processes.
unfoldable pub on_process_state_change : Server → Server
on_process_state_change s = request_reconcile (mark_state_dirty s)

unfoldable pub on_process_health_change : Server → Server
on_process_health_change s = request_reconcile s

-- A reload with its wait; `later` is the server as the wait ends.
abbrev pub end_plan : Server → Server → Outcome Planned → Server × Outcome Diff
end_plan later s stuck = (s, stuck)
end_plan later s (refused e) = (s, refused e)
end_plan later s (done (diff, none)) = (s, done diff)
end_plan later s (done (diff, some (r, waiting))) = (reload_end r later, done diff)

unfoldable pub reload :
    (ProgramConfig → ProgramConfig → Bool)
    → (Str → Bool)
    → Result Config
    → Server
    → Server
    → Server × Outcome Diff
reload deep_equal make parsed later s = end_plan later s (reload_begin deep_equal make parsed s)

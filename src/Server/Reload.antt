-- ===== src/Server/Reload.antt =====
-- Reloading the configuration, in internal/server/reload.go: `diffPrograms`, `applyPrograms`,
-- `changedDaemonSetting`, `stopForReload` up to its wait. `reflect.DeepEqual` on two programs is
-- the parameter `deep_equal`.
pub mod Plan
pub mod Applied
use supavisor.Prelude.{
  has, sort, ◌≡◌, refl, Bool, true, false, not, ◌&&◌, ◌||◌, Option, none, some, List, [], ◌∷◌, ◌++◌,
  if◌then◌else◌, Str, str_eq, str_le, Dict, lookup, insert, delete, keys, text, is_empty, arith,
}
use supavisor.Config.{Config, ProgramConfig, SupavisorConfig}
use supavisor.Process.{Process, new_process}
use supavisor.Server.{
  Server, DesiredState, desired_running, desired_stopped, set_desired, request_reconcile,
}

pub record Diff : Type 0 where
  pub added : List Str
  pub removed : List Str
  pub changed : List Str

-- The programs of the second dictionary that the first has not: the loops for `added` and
-- `removed`.
unfoldable pub missing_from : {V : Type 0} → Dict V → Dict V → List Str
missing_from others [] = []
missing_from others ((name, prog) ∷ later) =
    let rest = missing_from others later in if has (lookup name others) then rest else name ∷ rest

module _ (deep_equal : ProgramConfig → ProgramConfig → Bool) where
  abbrev pub is_changed : Option ProgramConfig → ProgramConfig → Bool
  is_changed none prog = false
  is_changed (some old) prog = not (deep_equal old prog)

  unfoldable pub changed_from : Dict ProgramConfig → Dict ProgramConfig → List Str
  changed_from old [] = []
  changed_from old ((name, prog) ∷ later) =
      let rest = changed_from old later in
      if is_changed (lookup name old) prog then name ∷ rest else rest

  unfoldable pub diff_programs : Dict ProgramConfig → Dict ProgramConfig → Diff
  diff_programs old updated = record {
    added = sort (missing_from old updated);
    removed = sort (missing_from updated old);
    changed = sort (changed_from old updated);
  }

-- The name of the first daemon setting that differs.
unfoldable pub changed_daemon_setting : SupavisorConfig → SupavisorConfig → Option Str
changed_daemon_setting old updated =
    if not (str_eq old.pid_file updated.pid_file)
    then some (text "pidfile")
    else if not (str_eq old.socket updated.socket)
    then some (text "socket")
    else if not (str_eq old.socket_group updated.socket_group)
    then some (text "socket_group")
    else if not (str_eq old.log_file updated.log_file)
    then some (text "logfile")
    else if not (str_eq old.log_format updated.log_format)
    then some (text "log_format")
    else if not (str_eq old.log_level updated.log_level)
    then some (text "log_level")
    else none

-- `stopForReload` up to its wait for each program.
unfoldable pub stop_for_reload : List Str → Server → Server
stop_for_reload [] s = request_reconcile s
stop_for_reload (name ∷ names) s = stop_for_reload names (set_desired name desired_stopped s).0

unfoldable pub drop_program : Str → Server → Server
drop_program name s = record s {
  processes = delete name s.processes;
  desired = delete name s.desired;
  inflight = delete name s.inflight;
  blocked_reason = delete name s.blocked_reason;
}

abbrev pub restored : Option DesiredState → Dict DesiredState → Str → Dict DesiredState
restored none desired name = delete name desired
restored (some d) desired name = insert name d desired

abbrev pub autostart_state : Bool → DesiredState
autostart_state true = desired_running
autostart_state false = desired_stopped

-- A name that the new configuration has not is passed over: the program would stop with a nil
-- dereference there, and the lists of a diff hold no such name.
unfoldable pub replace_program : Config → Dict DesiredState → Str → Server → Server
replace_program new_cfg previous name s = elim (lookup name new_cfg.programs) [
  | none ↦ s
  | some prog ↦ record s {
    processes = insert name (new_process prog) s.processes;
    desired = restored (lookup name previous) s.desired name;
    blocked_reason = delete name s.blocked_reason;
  }
]

unfoldable pub add_program : Config → Str → Server → Server
add_program new_cfg name s = elim (lookup name new_cfg.programs) [
  | none ↦ s
  | some prog ↦ record s {
    processes = insert name (new_process prog) s.processes;
    desired = insert name (autostart_state prog.autostart) s.desired;
  }
]

unfoldable pub for_each : (Str → Server → Server) → List Str → Server → Server
for_each f [] s = s
for_each f (name ∷ names) s = for_each f names (f name s)

-- The graph that the source rebuilds here is a function of the configuration.
unfoldable pub apply_programs : Config → Dict DesiredState → Diff → Server → Server
apply_programs new_cfg previous diff s =
    let dropped = for_each drop_program diff.removed s in
    let replaced = for_each (replace_program new_cfg previous) diff.changed dropped in
    let added = for_each (add_program new_cfg) diff.added replaced in
    record added { config = new_cfg }

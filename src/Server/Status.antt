-- ===== src/Server/Status.antt =====
-- The status of the programs: `GetStatus` of internal/server/server.go and `selectProcess` of ipc.go.
-- The uptime is the nanoseconds since the start; the text of `formatDuration`, which goes through
-- floating point, is not modelled.
pub mod Listed
use supavisor.Prelude.{
  ℕ, ◌-◌, Bool, true, false, Option, none, some, List, [], ◌∷◌, if◌then◌else◌, Str, str_eq, str_le,
  Dict, lookup,
}
use supavisor.Prelude.Int.{ℤ}
use supavisor.Process.{Process, State, Health, running, state_eq}
use supavisor.Server.{Server, DesiredState, StatusReason, not_running_reason}

-- `none` is the empty desired state, and the uptime N/A.
pub record ProcessStatusInfo : Type 0 where
  pub name : Str
  pub state : State
  pub desired : Option DesiredState
  pub health : Health
  pub reason : StatusReason
  pub pid : ℕ
  pub exit_code : ℤ
  pub restart_count : ℕ
  pub uptime : Option ℕ

-- The body of the loop, at a time.
abbrev pub process_status : ℕ → Server → Str → Process → ProcessStatusInfo
process_status now s name p = record {
  name = name;
  state = p.state;
  desired = lookup name s.desired;
  health = p.health;
  reason = not_running_reason s name p;
  pid = p.pid;
  exit_code = p.exit_code;
  restart_count = p.restart_count;
  uptime = if state_eq p.state running then some (now - p.start_time) else none;
}

unfoldable pub statuses : ℕ → Server → Dict Process → List ProcessStatusInfo
statuses now s [] = []
statuses now s ((name, p) ∷ processes) = process_status now s name p ∷ statuses now s processes

-- The sort by name, as an insertion sort.
unfoldable pub insert_status : ProcessStatusInfo → List ProcessStatusInfo → List ProcessStatusInfo
insert_status x [] = x ∷ []
insert_status x (y ∷ ys) =
    let rest = insert_status x ys in if str_le x.name y.name then x ∷ y ∷ ys else y ∷ rest

unfoldable pub sort_statuses : List ProcessStatusInfo → List ProcessStatusInfo
sort_statuses [] = []
sort_statuses (x ∷ xs) = insert_status x (sort_statuses xs)

unfoldable pub get_status : ℕ → Server → List ProcessStatusInfo
get_status now s = sort_statuses (statuses now s s.processes)

unfoldable pub select_process : List ProcessStatusInfo → Str → List ProcessStatusInfo
select_process [] name = []
select_process (status ∷ later) name =
    let rest = select_process later name in if str_eq status.name name then status ∷ [] else rest

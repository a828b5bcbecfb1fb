-- ===== src/Process.antt =====
-- A managed process: the record of internal/process/process.go, the states of state.go, and the
-- operations that the others are made of.
--
-- Each `Start` makes a context and, if it gets that far, the channels of a run. They are named by
-- the number of the `Start`, so `p.cancel()` and `close(stopRequested)` add that number to the
-- contexts that are canceled and the channels that are closed. `events` is what the two callbacks
-- were called with, the last one first; the server sets both before the first start.
pub mod Command
pub mod Logging
pub mod Probe
pub mod Backoff
pub mod Start
pub mod Stop
pub mod Monitor
pub mod Life
pub mod Reaper
use supavisor.Prelude.{
  ℕ, zero, suc, ◌+◌, ◌==◌, ◌≡◌, ◌↔◌, Bool, true, false, not, ◌||◌, Option, none, some, List, [],
  ◌∷◌, if◌then◌else◌, Str, arith,
}
use supavisor.Prelude.Int.{ℤ, pos}
use supavisor.Config.{ProgramConfig}

pub data State : Type 0 where
  stopped starting running backoff stopping exited fatal unknown : State

pub data Health : Type 0 where
  health_none health_starting health_healthy health_unhealthy : Health

abbrev is_running : State → Bool
is_running running = true
is_running _ = false

abbrev pub is_stopped : State → Bool
is_stopped stopped = true
is_stopped exited = true
is_stopped fatal = true
is_stopped _ = false

abbrev state_index : State → ℕ
state_index stopped = 0
state_index starting = 1
state_index running = 2
state_index backoff = 3
state_index stopping = 4
state_index exited = 5
state_index fatal = 6
state_index unknown = 7

-- `==` on states.
abbrev pub state_eq : State → State → Bool
state_eq a b = state_index a == state_index b

abbrev health_index : Health → ℕ
health_index health_none = 0
health_index health_starting = 1
health_index health_healthy = 2
health_index health_unhealthy = 3

abbrev pub health_eq : Health → Health → Bool
health_eq a b = health_index a == health_index b

-- What `exitErrorOf` makes of a wait status that is not success.
pub data ExitError : Type 0 where
  killed_by : (signal : ℕ) → ExitError
  exit_status : (status : ℕ) → ExitError

-- A call of one of the two callbacks.
pub data Event : Type 0 where
  state_changed : (before after : State) → Event
  health_changed : (before after : Health) → Event

-- One captured output stream; `child_open` is whether the parent still holds the write end.
pub record LogStream : Type 0 where
  pub path : Str
  pub max_bytes : ℤ
  pub backups : ℤ
  pub max_age : ℤ
  pub child_open : Bool

pub record Process : Type 0 where
  pub config : ProgramConfig
  pub cmd : Bool  -- whether a command has been started
  pub cancel : Option ℕ
  pub health_cancel : Option ℕ
  pub monitor_done : Option ℕ
  pub stop_requested : Option ℕ
  pub last_error : Option ExitError
  pub start_time : ℕ
  pub stop_time : ℕ
  pub state : State
  pub health : Health
  pub streams : List LogStream
  pub pid : ℕ
  pub exit_code : ℤ
  pub restart_count : ℕ
  pub completed : Bool
  pub stopped_externally : Bool
  pub starts : ℕ  -- contexts made so far
  pub canceled : List ℕ
  pub closed : List ℕ  -- `stopRequested` channels that are closed
  pub events : List Event

unfoldable pub new_process : ProgramConfig → Process
new_process cfg = record {
  config = cfg;
  cmd = false;
  cancel = none;
  health_cancel = none;
  monitor_done = none;
  stop_requested = none;
  last_error = none;
  start_time = 0;
  stop_time = 0;
  state = stopped;
  health = health_none;
  streams = [];
  pid = 0;
  exit_code = pos 0;
  restart_count = 0;
  completed = false;
  stopped_externally = false;
  starts = 0;
  canceled = [];
  closed = [];
  events = [];
}

unfoldable pub set_state : State → Process → Process
set_state s p = record p {
  state = s;
  events = if state_eq p.state s then p.events else state_changed p.state s ∷ p.events;
}

unfoldable pub compare_and_set_state : State → State → Process → Process × Bool
compare_and_set_state from to p =
    if state_eq p.state from
    then (
      record p {
        state = to;
        events = if state_eq from to then p.events else state_changed from to ∷ p.events;
      },
      true,
    )
    else (p, false)

unfoldable pub set_health : Health → Process → Process
set_health h p = record p {
  health = h;
  events = if health_eq p.health h then p.events else health_changed p.health h ∷ p.events;
}

-- `if p.cancel != nil { p.cancel() }`
unfoldable pub call_cancel : Option ℕ → Process → Process
call_cancel none p = p
call_cancel (some c) p = record p { canceled = c ∷ p.canceled }

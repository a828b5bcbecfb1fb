-- ===== src/Server/Requests.antt =====
-- The requests of internal/server/server.go, `StartProcess` and `StopProcess`, up to their wait, and
-- the wait, `awaitState` of reconcile.go, over what its polls find.
pub mod Effects
pub mod Waits
use supavisor.Prelude.{
  ◌≡◌, Bool, true, false, ◌&&◌, ◌||◌, Option, none, some, List, [], ◌∷◌, if◌then◌else◌, Str, lookup,
  insert,
}
use supavisor.Process.{Process, State, stopped, running, exited, state_eq, is_stopped}
use supavisor.Process.Stop.{stop_begin}
use supavisor.Server.{
  Server, DesiredState, desired_running, desired_stopped, ServerError, process_not_found, Reason,
  set_desired, request_reconcile, wants_to_run, dependencies_satisfied,
}
use supavisor.Server.Blocking.{BlockReason, Found, blocked_indefinitely}

pub data RequestError : Type 0 where
  unknown_process : (name : Str) → RequestError
  already_running : (name : Str) → RequestError
  cannot_start : (name : Str) → BlockReason → RequestError
  shutting_down : RequestError
  never_ran : (name : Str) → Reason → RequestError
  timed_out : (name : Str) (state : State) → RequestError

abbrev pub accept : Server × Option ServerError → Server × Option RequestError
accept (s, none) = (request_reconcile s, none)
accept (s, some (process_not_found name)) = (s, some (unknown_process name))

-- `StopProcess` up to its wait.
unfoldable pub stop_request : Str → Server → Server × Option RequestError
stop_request name s = accept (set_desired name desired_stopped s)

-- A process that gave up, or that exited on its own, is released back to STOPPED.
abbrev pub release : Bool → Str → Process → Server → Server
release alive name p s =
    if is_stopped p.state
    then record s { processes = insert name (stop_begin alive p).0 s.processes }
    else s

-- `StartProcess` up to its wait; `alive` answers the probe of the group.
unfoldable pub start_request : Bool → Str → Server → Server × Option RequestError
start_request alive name s = elim (lookup name s.processes) [
  | none ↦ (s, some (unknown_process name))
  | some p ↦
      if state_eq p.state running
      then (s, some (already_running name))
      else accept (set_desired name desired_running (release alive name p s))
]

-- What the two requests wait for.
abbrev pub has_started : Process → Bool
has_started p = state_eq p.state running || (state_eq p.state exited && p.completed)

abbrev pub has_stopped : Process → Bool
has_stopped p = state_eq p.state stopped

-- What ends one round of the wait; the deadline finds a server and a process of its own time.
pub data RoundEnd : Type 0 where
  ticked stop_chan_closed : RoundEnd
  deadline_passed : Server → Process → RoundEnd

pub record Poll : Type 0 where
  pub server : Server
  pub process : Process
  pub ended : RoundEnd

abbrev pub reason_of : Found → Option BlockReason
reason_of none = none
reason_of (some (seen, answer)) = answer

-- Dependencies are only asked about for a program that is wanted.
unfoldable pub given_up : Server → Str → Option BlockReason
given_up s name = if wants_to_run s name then reason_of (blocked_indefinitely s name) else none

abbrev pub await_timeout_error : Str → State → Option Reason → RequestError
await_timeout_error name state none = timed_out name state
await_timeout_error name state (some r) = never_ran name r

abbrev pub end_round : Str → RoundEnd → Option (Option RequestError) → Option (Option RequestError)
end_round name ticked later = later
end_round name stop_chan_closed later = some (some shutting_down)
end_round name (deadline_passed s p) later =
    some (some (await_timeout_error name p.state (dependencies_satisfied s name)))

-- `none` is that the polls are over and it still waits, `some none` that it is done.
unfoldable pub await_state : (Process → Bool) → Str → List Poll → Option (Option RequestError)
await_state done name [] = none
await_state done name (poll ∷ polls) =
    let later = await_state done name polls in
    if done poll.process then some none else elim (given_up poll.server name) [
      | some r ↦ some (some (cannot_start name r))
      | none ↦ end_round name poll.ended later
    ]

-- ===== src/Process/Stop.antt =====
-- Stopping, in internal/process/process.go: `Stop` up to its wait and from its wait on,
-- `SignalGroup` and `killLingeringGroup`. A call of kill(2) is an entry of the list of signals
-- that the operation sends.
pub mod Outcomes
use supavisor.Prelude.{
  ℕ, zero, suc, ◌+◌, ◌≡◌, refl, Bool, true, false, not, ◌||◌, ◌&&◌, ltb, Option, none, some, List,
  [], ◌∷◌, ◌++◌, if◌then◌else◌, arith,
}
use supavisor.Config.{sigkill}
use supavisor.Process.{
  Process, State, stopped, backoff, stopping, is_stopped, state_eq, set_state, call_cancel,
}
use supavisor.Process.Logging.{stop_logging}
use supavisor.Process.Probe.{stop_health_checks}

-- `kill(-pid, signal)`
pub record GroupSignal : Type 0 where
  pub pid : ℕ
  pub signal : ℕ

-- An invalid PID sends nothing.
unfoldable pub signal_group : ℕ → ℕ → List GroupSignal
signal_group zero signal = []
signal_group (suc pid) signal = record { pid = suc pid; signal = signal } ∷ []

-- `close(stopRequested)`, of a channel that has been taken.
abbrev pub close_channel : Option ℕ → Process → Process
close_channel none p = p
close_channel (some c) p = record p { closed = c ∷ p.closed }

-- The marks that `Stop` makes before it looks at the state.
unfoldable pub mark_stop : Process → Process
unfolding stop_health_checks
mark_stop p =
    stop_health_checks (
      close_channel p.stop_requested
        (record p { stopped_externally = true; stop_requested = none }))

-- What `Stop` does next: it is done, it waits for the monitor, or it goes straight to the end.
pub data StopPlan : Type 0 where
  stop_done stop_wait stop_end : StopPlan

abbrev StopBegun : Type 0
StopBegun = Process × StopPlan × List GroupSignal

abbrev plan_of : Option ℕ → StopPlan
plan_of none = stop_end
plan_of (some _) = stop_wait

-- `alive` answers the probe of the group by signal 0.
unfoldable signal_and_wait : Bool → Process → StopBegun
unfolding signal_group
signal_and_wait alive p =
    if p.cmd
    then (p, plan_of p.monitor_done, if alive then signal_group p.pid p.config.stop_signal else [])
    else (p, stop_end, [])

unfoldable pub stop_begin : Bool → Process → StopBegun
unfolding set_state call_cancel stop_logging signal_and_wait
stop_begin alive p =
    let q = mark_stop p in
    if is_stopped p.state || state_eq p.state backoff
    then (set_state stopped (stop_logging (call_cancel p.cancel q)), stop_done, [])
    else signal_and_wait alive (set_state stopping q)

-- How the wait for the monitor ends.
pub data StopWait : Type 0 where
  exited_gracefully : StopWait
  grace_over : StopWait  -- SIGKILL; then the monitor reports within `reapGrace`, or never

unfoldable pub stop_signals : StopWait → ℕ → List GroupSignal
unfolding signal_group
stop_signals exited_gracefully pid = []
stop_signals grace_over pid = signal_group pid sigkill

-- `cancel` is the function that `Stop` read at its beginning.
unfoldable pub stop_finish : Option ℕ → Process → Process
unfolding call_cancel stop_logging
stop_finish cancel p = stop_logging (call_cancel cancel p)

-- `leader` is whether the PID belongs to a live process, `group` whether the group has members.
unfoldable kill_lingering_group : Bool → Bool → ℕ → List GroupSignal
unfolding signal_group
kill_lingering_group leader group pid =
    if leader then [] else if group then signal_group pid sigkill else []

-- ===== src/Process/Monitor.antt =====
-- The monitor goroutine, in internal/process/process.go: `monitor` from the exit on, and
-- `maybeRestart` up to its wait and from its wait on. `exitErrorOf` is there too, and
-- `exitCodeOfStatus` in reaper.go.
pub mod Settling
pub mod CrashLoop
use supavisor.Prelude.{
  ℕ, zero, suc, ◌+◌, ◌-◌, ◌*◌, ◌≡◌, refl, Bool, true, false, not, ◌||◌, ◌&&◌, ◌==◌, leb, Option,
  none, some, List, [], ◌∷◌, if◌then◌else◌, arith,
}
use supavisor.Prelude.Int.{ℤ, pos, negsuc, ltb_ℤ}
use supavisor.Config.{
  RestartPolicy, restart_always, restart_never, restart_unexpected, ProgramConfig, second,
}
use supavisor.Process.{
  Process, State, stopped, stopping, exited, fatal, backoff, ExitError, killed_by, exit_status,
  state_eq, set_state,
}
use supavisor.Process.Logging.{stop_logging}
use supavisor.Process.Probe.{stop_health_checks}
use supavisor.Process.Start.{StartEnv, StartError, Started, start}

-- The two kinds of wait status that wait4 reports without WUNTRACED.
pub data WaitStatus : Type 0 where
  exited_with : (status : ℕ) → WaitStatus
  signaled_by : (signal : ℕ) → WaitStatus

unfoldable pub exit_code_of_status : WaitStatus → ℤ
exit_code_of_status (exited_with status) = pos status
exit_code_of_status (signaled_by signal) = negsuc 0

unfoldable exit_error_of : WaitStatus → Option ExitError
exit_error_of (signaled_by signal) = some (killed_by signal)
exit_error_of (exited_with zero) = none
exit_error_of (exited_with (suc n)) = some (exit_status (suc n))

abbrev pub is_zero : ℤ → Bool
is_zero (pos n) = n == 0
is_zero (negsuc n) = false

abbrev pub healthy_uptime : ℕ
healthy_uptime = 60 * second

-- What the monitor records under the lock. The clock does not run backwards, so `-` is exact.
unfoldable pub record_exit : WaitStatus → ℕ → Process → Process
unfolding stop_health_checks stop_logging exit_code_of_status exit_error_of
record_exit status now p =
    let q = stop_logging (stop_health_checks p) in
    record q {
      exit_code = exit_code_of_status status;
      stop_time = now;
      last_error = exit_error_of status;
      restart_count = if leb healthy_uptime (now - q.start_time) then 0 else q.restart_count;
    }

-- The switch; the second result is whether `maybeRestart` is called.
unfoldable settle_exit : Process → Process × Bool
unfolding set_state
settle_exit p =
    if state_eq p.state stopping && p.stopped_externally
    then (set_state stopped p, false)
    else if state_eq p.state stopping
    then (set_state exited p, false)
    else if p.stopped_externally
    then (set_state stopped p, false)
    else (set_state exited (record p { completed = is_zero p.exit_code || p.completed }), true)

unfoldable pub monitor_exit : WaitStatus → ℕ → Process → Process × Bool
unfolding record_exit settle_exit
monitor_exit status now p = settle_exit (record_exit status now p)

unfoldable pub should_restart : RestartPolicy → ℤ → Bool
should_restart restart_always code = true
should_restart restart_unexpected code = not (is_zero code)
should_restart restart_never code = false

-- `maybeRestart` up to its wait: the attempt that it waits for, if any.
unfoldable pub restart_begin : Process → Process × Option ℕ
unfolding should_restart set_state
restart_begin p =
    if should_restart p.config.autorestart p.exit_code
    then if ltb_ℤ (pos p.restart_count) p.config.max_restarts
      then (record p { restart_count = p.restart_count + 1 }, some (p.restart_count + 1))
      else (set_state fatal p, none)
    else (p, none)

-- What ends the wait.
pub data RestartWait : Type 0 where
  backoff_over restart_context_done stop_was_requested : RestartWait

abbrev pub fatal_on_error : Started → Process
fatal_on_error (p, none) = p
fatal_on_error (p, some e) = set_state fatal p

-- `maybeRestart` from its wait on.
unfoldable pub restart_end : StartEnv → RestartWait → Process → Process
unfolding set_state start
restart_end env restart_context_done p = p
restart_end env stop_was_requested p = p
restart_end env backoff_over p =
    if p.stopped_externally || state_eq p.state stopping
    then p
    else fatal_on_error (start env (set_state backoff p))

-- The answers that one monitor goroutine gets: the exit and its time, what ends a restart's wait,
-- and what the new start meets.
pub record Round : Type 0 where
  pub status : WaitStatus
  pub now : ℕ
  pub wait : RestartWait
  pub env : StartEnv

abbrev after_attempt : Round → Process × Option ℕ → Process
after_attempt r (p, none) = p
after_attempt r (p, some attempt) = restart_end r.env r.wait p

unfoldable pub maybe_restart : Round → Process → Process
maybe_restart r p = after_attempt r (restart_begin p)

abbrev pub after_exit : Round → Process × Bool → Process
after_exit r (p, true) = maybe_restart r p
after_exit r (p, false) = p

-- The goroutine from the exit to its end.
unfoldable pub monitor : Round → Process → Process
monitor r p = after_exit r (monitor_exit r.status r.now p)

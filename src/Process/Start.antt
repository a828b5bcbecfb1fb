-- ===== src/Process/Start.antt =====
-- Starting a run, in internal/process/process.go: `Start`, `recordRun`, `buildCommand` and
-- `waitForStartSuccess`.
pub mod Outcomes
use supavisor.Prelude.{
  ℕ, zero, suc, ◌+◌, ◌≡◌, refl, Bool, true, false, not, ◌||◌, Option, none, some, List, [], ◌∷◌,
  if◌then◌else◌, Str, arith,
}
use supavisor.Process.{
  Process, State, starting, running, fatal, state_eq, set_state, compare_and_set_state, call_cancel,
}
use supavisor.Process.Command.{parse_command}
use supavisor.Process.Logging.{start_logging, stop_logging, close_child_ends}
use supavisor.Process.Probe.{start_health_checks}

pub data StartError : Type 0 where
  already_running log_capture_failed spawn_failed : StartError
  invalid_command : Str → StartError

-- What the environment answers: which log files open, the PID of the child if the fork succeeds,
-- and the time.
pub record StartEnv : Type 0 where
  pub can_open : Str → Bool
  pub child : Option ℕ
  pub now : ℕ

abbrev pub Started : Type 0
Started = Process × Option StartError

-- The clean-up that every failure of `Start` shares.
unfoldable pub start_failed : ℕ → StartError → Process → Started
unfolding set_state stop_logging call_cancel
start_failed run e p = (set_state fatal (call_cancel (some run) (stop_logging p)), some e)

unfoldable pub record_run : ℕ → ℕ → ℕ → Process → Process
record_run run pid now p = record p {
  cmd = true;
  pid = pid;
  start_time = now;
  last_error = none;
  monitor_done = some run;
  stop_requested = some run;
  stopped_externally = false;
}

unfoldable pub launch : StartEnv → ℕ → Option ℕ → Process → Started
unfolding record_run close_child_ends start_health_checks start_failed
launch env run none p = start_failed run spawn_failed p
launch env run (some pid) p =
    (start_health_checks run (record_run run pid env.now (close_child_ends p)), none)

-- The arguments of the command decide: none at all is an error.
unfoldable pub build_and_launch : StartEnv → ℕ → List Str → Process → Started
unfolding launch start_failed
build_and_launch env run [] p = start_failed run (invalid_command p.config.command) p
build_and_launch env run (name ∷ args) p = launch env run env.child p

unfoldable pub after_logging : StartEnv → ℕ → Process × Bool → Started
unfolding build_and_launch start_failed
after_logging env run (p, true) = build_and_launch env run (parse_command p.config.command) p
after_logging env run (p, false) = start_failed run log_capture_failed p

-- The part under the lock: a fresh context, and the last run's achievement forgotten.
unfoldable pub begin_start : Process → Process
unfolding call_cancel set_state
begin_start p =
    let q = call_cancel p.cancel (record p { completed = false }) in
    set_state starting (record q { cancel = some p.starts; starts = p.starts + 1 })

unfoldable pub start : StartEnv → Process → Started
unfolding begin_start after_logging start_logging
start env p =
    if state_eq p.state running || state_eq p.state starting
    then (p, some already_running)
    else after_logging env p.starts (start_logging env.can_open (begin_start p))

-- What ends the wait of `waitForStartSuccess`.
pub data StartWait : Type 0 where
  start_secs_passed context_done run_exited : StartWait

unfoldable pub wait_for_start_success : StartWait → Process → Process
unfolding compare_and_set_state
wait_for_start_success start_secs_passed p = (compare_and_set_state starting running p).0
wait_for_start_success context_done p = p
wait_for_start_success run_exited p = p

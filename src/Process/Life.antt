-- ===== src/Process/Life.antt =====
-- The life of a process as a sequence of the pieces that its goroutines and callers run between
-- two waits, in any order (internal/process/process.go, health.go).
pub mod Limit
use supavisor.Prelude.{ℕ, Bool, Option, List, [], ◌∷◌}
use supavisor.Process.{Process, Health}
use supavisor.Process.Probe.{apply_health}
use supavisor.Process.Stop.{stop_begin, stop_finish}
use supavisor.Process.Start.{StartEnv, StartWait, start, wait_for_start_success}
use supavisor.Process.Monitor.{WaitStatus, monitor_exit, restart_begin, RestartWait, restart_end}

pub data Action : Type 0 where
  call_start : StartEnv → Action
  start_wait_ends : StartWait → Action
  call_stop : (alive : Bool) → Action
  stop_wait_ends : (cancel : Option ℕ) → Action
  exit_seen : WaitStatus → (now : ℕ) → Action
  restart_decided : Action
  restart_wait_ends : StartEnv → RestartWait → Action
  probe_reports : Option Health → Action

unfoldable pub act : Action → Process → Process
act (call_start env) p = (start env p).0
act (start_wait_ends w) p = wait_for_start_success w p
act (call_stop alive) p = (stop_begin alive p).0
act (stop_wait_ends cancel) p = stop_finish cancel p
act (exit_seen status now) p = (monitor_exit status now p).0
act restart_decided p = (restart_begin p).0
act (restart_wait_ends env w) p = restart_end env w p
act (probe_reports h) p = apply_health h p

unfoldable pub run_actions : List Action → Process → Process
run_actions [] p = p
run_actions (a ∷ later) p = run_actions later (act a p)

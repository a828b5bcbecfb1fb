-- ===== src/Process/Life/Limit.antt =====
-- max_restarts in every interleaving (internal/process/process.go).
use supavisor.Prelude.{
  ℕ, ◌≡◌, refl, ◌∙◌, inl, inr, Bool, Option, none, some, List, [], ◌∷◌, ◌||◌, Bool-cases, arith,
}
use supavisor.Prelude.Int.{pos, ◌≤ℤ◌}
use supavisor.Config.{ProgramConfig}
use supavisor.Process.{
  Process, backoff, stopping, state_eq, new_process, set_state, Health, set_health,
}
use supavisor.Process.Probe.{apply_health}
use supavisor.Process.Stop.{stop_begin, stop_finish, mark_stop}
use supavisor.Process.Stop.Outcomes.{marked}
use supavisor.Process.Start.{
  StartEnv, StartWait, start_secs_passed, context_done, run_exited, Started, start,
  wait_for_start_success,
}
use supavisor.Process.Start.Outcomes.{IsBusy-dec, busy-refused, start-Outcome}
use supavisor.Process.Monitor.{
  WaitStatus, monitor_exit, restart_begin, RestartWait, backoff_over, restart_context_done,
  stop_was_requested, restart_end, fatal_on_error,
}
use supavisor.Process.Monitor.Settling.{clear_health-config}
use supavisor.Process.Life.{
  Action, call_start, start_wait_ends, call_stop, stop_wait_ends, exit_seen, restart_decided,
  restart_wait_ends, probe_reports, act, run_actions,
}

-- The configuration is `cfg`, and no more restarts are counted than it allows.
pub record IsLimited (cfg : ProgramConfig) (p : Process) : Type 0 where
  pub same : p.config ≡ cfg
  pub limited : pos p.restart_count ≤ℤ cfg.max_restarts

module _ {cfg : ProgramConfig} where
  start-IsLimited : (env : StartEnv) (p : Process) → IsLimited cfg p → IsLimited cfg (start env p).0
  start-IsLimited env p h = elim (IsBusy-dec p) [
    | inl busy ↦ rw (busy-refused env p busy) h
    | inr idle ↦
        let o = start-Outcome env p idle in
        record { same = o.config ∙ h.same; limited = rw o.restarts_kept h.limited }
  ]

  fatal_on_error-IsLimited : (s : Started) → IsLimited cfg s.0 → IsLimited cfg (fatal_on_error s)
  unfolding set_state
  fatal_on_error-IsLimited (p, none) h = h
  fatal_on_error-IsLimited (p, some e) h = record { same = h.same; limited = h.limited }

  restart_end-IsLimited :
      (env : StartEnv) (w : RestartWait) (p : Process)
      → IsLimited cfg p
      → IsLimited cfg (restart_end env w p)
  unfolding restart_end set_state
  restart_end-IsLimited env restart_context_done p h = h
  restart_end-IsLimited env stop_was_requested p h = h
  restart_end-IsLimited env backoff_over p h =
      elim (Bool-cases (p.stopped_externally || state_eq p.state stopping)) [
        | inl c ↦ rw c h
        | inr c ↦ rw c (
            fatal_on_error-IsLimited (start env (set_state backoff p)) (
              start-IsLimited env (set_state backoff p)
                (record { same = h.same; limited = h.limited })))
      ]

  wait-IsLimited :
      (w : StartWait) (p : Process) → IsLimited cfg p → IsLimited cfg (wait_for_start_success w p)
  unfolding wait_for_start_success
  wait-IsLimited start_secs_passed p h = ground arith
  wait-IsLimited context_done p h = h
  wait-IsLimited run_exited p h = h

  stop-IsLimited :
      (alive : Bool) (p : Process) → IsLimited cfg p → IsLimited cfg (stop_begin alive p).0
  unfolding stop_begin mark_stop
  stop-IsLimited alive p h = ground (arith, clear_health-config p.health_cancel (marked p))

  finish-IsLimited :
      (c : Option ℕ) (p : Process) → IsLimited cfg p → IsLimited cfg (stop_finish c p)
  unfolding stop_finish
  finish-IsLimited none p h = ground arith
  finish-IsLimited (some c) p h = ground arith

  exit-IsLimited :
      (status : WaitStatus) (now : ℕ) (p : Process)
      → IsLimited cfg p
      → IsLimited cfg (monitor_exit status now p).0
  unfolding monitor_exit
  exit-IsLimited status now p h = ground (arith, clear_health-config p.health_cancel p)

  restart_begin-IsLimited : (p : Process) → IsLimited cfg p → IsLimited cfg (restart_begin p).0
  unfolding restart_begin
  restart_begin-IsLimited p h = ground arith

  health-IsLimited :
      (o : Option Health) (p : Process) → IsLimited cfg p → IsLimited cfg (apply_health o p)
  unfolding set_health
  health-IsLimited none p h = h
  health-IsLimited (some x) p h = record { same = h.same; limited = h.limited }

  act-IsLimited : (a : Action) (p : Process) → IsLimited cfg p → IsLimited cfg (act a p)
  unfolding act
  act-IsLimited (call_start env) p h = start-IsLimited env p h
  act-IsLimited (start_wait_ends w) p h = wait-IsLimited w p h
  act-IsLimited (call_stop alive) p h = stop-IsLimited alive p h
  act-IsLimited (stop_wait_ends cancel) p h = finish-IsLimited cancel p h
  act-IsLimited (exit_seen status now) p h = exit-IsLimited status now p h
  act-IsLimited restart_decided p h = restart_begin-IsLimited p h
  act-IsLimited (restart_wait_ends env w) p h = restart_end-IsLimited env w p h
  act-IsLimited (probe_reports o) p h = health-IsLimited o p h

  run_actions-IsLimited :
      (actions : List Action) (p : Process)
      → IsLimited cfg p
      → IsLimited cfg (run_actions actions p)
  unfolding run_actions
  run_actions-IsLimited [] p h = h
  run_actions-IsLimited (a ∷ later) p h =
      run_actions-IsLimited later (act a p) (act-IsLimited a p h)

-- Whatever starts, stops, exits, restarts and probe results happen to a new process, and in
-- whatever order, its restart counter never passes a limit that is not negative, and it keeps its
-- configuration.
pub restart_count-le-max_restarts :
    (cfg : ProgramConfig) (actions : List Action)
    → pos 0 ≤ℤ cfg.max_restarts
    → IsLimited cfg (run_actions actions (new_process cfg))
unfolding new_process
restart_count-le-max_restarts cfg actions h =
    run_actions-IsLimited actions (new_process cfg) (record { same = refl; limited = h })

-- ===== src/Tests/OfProcess.antt =====
-- Tests of the models of internal/process.
use supavisor.Prelude.{
  ◌+◌, ◌≤◌, ◌≡◌, refl, inl, inr, true, false, none, some, [], ◌∷◌, text, length, arith,
}
use supavisor.Prelude.Int.{pos}
use supavisor.Config.{second}
use supavisor.Process.{
  Process, running, backoff, exited, fatal, health_healthy, health_unhealthy, new_process,
}
use supavisor.Process.Command.{parse_command}
use supavisor.Process.Command.Quoting.{command_line, parse_command-command_line}
use supavisor.Process.Start.{already_running, start}
use supavisor.Process.Start.Outcomes.{IsBusy, Outcome, start-Outcome}
use supavisor.Process.Stop.{stop_begin}
use supavisor.Process.Probe.{Attempt, probe_start, probe_loop}
use supavisor.Process.Probe.Verdict.{probe_loop-after_pass}
use supavisor.Process.Monitor.{
  exited_with, signaled_by, monitor_exit, backoff_over, restart_end, monitor, maybe_restart,
  restart_begin, Round,
}
use supavisor.Process.Monitor.Settling.{stop_begin-restart_end}
use supavisor.Process.Monitor.CrashLoop.{Crashes, crash_loop, crash_loop-fatal}
use supavisor.Process.Life.{call_start, exit_seen, restart_decided, restart_wait_ends, run_actions}
use supavisor.Process.Life.Limit.{IsLimited, restart_count-le-max_restarts}
use supavisor.Tests.Samples.{db_program, new_db, opens_all}

parse_command_quoted :
    parse_command (text "sh -c 'a \"b\"' x\\ y \"\"")
    ≡ text "sh" ∷ text "-c" ∷ text "a \"b\"" ∷ text "x y" ∷ [] ∷ []
unfolding parse_command
parse_command_quoted = refl

parse_command-command_line_example :
    parse_command (command_line (text "echo" ∷ text "a \"b\\" ∷ [] ∷ []))
    ≡ text "echo" ∷ text "a \"b\\" ∷ [] ∷ []
parse_command-command_line_example =
    parse_command-command_line (text "echo" ∷ text "a \"b\\" ∷ [] ∷ [])

start-Outcome_example : Outcome new_db (start opens_all new_db).0 (start opens_all new_db).1
unfolding new_process
start-Outcome_example = start-Outcome opens_all new_db idle
  where
    idle : ¬ IsBusy new_db
    idle h = ground arith

abbrev up : Process
up = record new_db {
  cmd = true;
  state = running;
  pid = 41;
  cancel = some 0;
  monitor_done = some 0;
  stop_requested = some 0;
  starts = 1;
}

start_of_running : (start opens_all up).1 ≡ some already_running
unfolding start
start_of_running = refl

-- The run lasts a second and then exits with status 1.
abbrev crash : Round
crash = record { status = exited_with 1; now = 1000 + second; wait = backoff_over; env = opens_all }

abbrev waiting : Process
waiting = record up { state = exited; restart_count = 1 }

stop_begin-restart_end_example :
    restart_end opens_all backoff_over (stop_begin false waiting).0 ≡ (stop_begin false waiting).0
stop_begin-restart_end_example = stop_begin-restart_end false opens_all backoff_over waiting

restart_count-le-max_restarts_example : IsLimited db_program (
    run_actions
      (call_start opens_all
        ∷ exit_seen (exited_with 1) 2000
        ∷ restart_decided
        ∷ restart_wait_ends opens_all backoff_over
        ∷ exit_seen (signaled_by 11) 3000
        ∷ restart_decided
        ∷ [])
      (new_process db_program))
restart_count-le-max_restarts_example =
    restart_count-le-max_restarts db_program
      (call_start opens_all
        ∷ exit_seen (exited_with 1) 2000
        ∷ restart_decided
        ∷ restart_wait_ends opens_all backoff_over
        ∷ exit_seen (signaled_by 11) 3000
        ∷ restart_decided
        ∷ [])
      (omega arith)

abbrev pass : Attempt
pass = record { passed = true; grace_over = false }

abbrev failure : Attempt
failure = record { passed = false; grace_over = false }

probe_loop-after_pass_example :
    (3 ≤ 2
      → (probe_loop (pos 2) (pass ∷ failure ∷ failure ∷ []) probe_start up).health ≡ health_healthy)
    × (2 ≤ 2
        → (probe_loop (pos 2) (pass ∷ failure ∷ failure ∷ []) probe_start up).health
          ≡ health_unhealthy)
probe_loop-after_pass_example =
    probe_loop-after_pass 2 pass (failure ∷ failure ∷ []) probe_start up (omega arith) refl
      (refl, (refl, tt))

-- What the loop computes with.
loop : Unit {0}
unfolding new_process monitor monitor_exit maybe_restart restart_begin restart_end start
    parse_command
loop = tt

starts : (q : Process) → q.config ≡ db_program → q.state ≡ backoff → (start opens_all q).1 ≡ none
unfolding loop
starts q c s = ground arith

first_crash : Crashes crash up
unfolding loop
first_crash = record {
  busy = inl refl;
  wanted = refl;
  retried = refl;
  short = omega arith;
  waited = refl;
}

second_crash : Crashes crash (crash_loop (crash ∷ []) up)
unfolding loop crash_loop
second_crash = record {
  busy = inr refl;
  wanted = refl;
  retried = refl;
  short = omega arith;
  waited = refl;
}

crash_loop-fatal_example :
    ((crash_loop (crash ∷ []) up).restart_count ≡ up.restart_count + length (crash ∷ []))
    × ((monitor crash (crash_loop (crash ∷ []) up)).state ≡ fatal)
unfolding new_process
crash_loop-fatal_example =
    crash_loop-fatal (crash ∷ []) up (first_crash, starts, tt) refl crash second_crash

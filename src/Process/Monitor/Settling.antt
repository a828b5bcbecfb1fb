-- ===== src/Process/Monitor/Settling.antt =====
-- How a run's end is settled, and what a stop makes of a monitor that is waiting to restart
-- (internal/process/process.go).
use supavisor.Prelude.{ℕ, ◌≤◌, ◌≡◌, refl, Bool, true, Option, none, some, arith}
use supavisor.Process.{Process, stopped}
use supavisor.Process.Probe.{clear_health}
use supavisor.Process.Stop.{mark_stop, stop_begin}
use supavisor.Process.Start.{StartEnv}
use supavisor.Process.Monitor.{
  RestartWait, restart_context_done, stop_was_requested, backoff_over, restart_end,
}

-- What the marks of `Stop` and the record of an exit leave alone.
pub clear_health-config :
    (run : Option ℕ) (p : Process)
    → ((clear_health run p).state ≡ p.state)
      × ((clear_health run p).stopped_externally ≡ p.stopped_externally)
      × ((clear_health run p).completed ≡ p.completed)
      × ((clear_health run p).config ≡ p.config)
      × ((clear_health run p).restart_count ≡ p.restart_count)
      × ((clear_health run p).start_time ≡ p.start_time)
unfolding clear_health
clear_health-config none p = ground arith
clear_health-config (some run) p = ground arith

stop_begin-marks : (alive : Bool) (p : Process) → (stop_begin alive p).0.stopped_externally ≡ true
unfolding stop_begin mark_stop
stop_begin-marks alive p = ground arith

restart_end-asked :
    (env : StartEnv) (wait : RestartWait) (p : Process)
    → p.stopped_externally ≡ true
    → restart_end env wait p ≡ p
unfolding restart_end
restart_end-asked env restart_context_done p h = refl
restart_end-asked env stop_was_requested p h = refl
restart_end-asked env backoff_over p h = rw h

-- Once `Stop` has begun, a monitor that waits out a restart backoff leaves the process as it is,
-- however its wait ends.
pub stop_begin-restart_end :
    (alive : Bool) (env : StartEnv) (wait : RestartWait) (p : Process)
    → restart_end env wait (stop_begin alive p).0 ≡ (stop_begin alive p).0
stop_begin-restart_end alive env wait p =
    restart_end-asked env wait (stop_begin alive p).0 (stop_begin-marks alive p)

-- What an exit makes of a process that was stopped on request.
pub record IsSettled (p q : Process) : Type 0 where
  pub state : q.state ≡ stopped
  pub asked : q.stopped_externally ≡ true
  pub completed : q.completed ≡ p.completed
  pub starts : q.starts ≡ p.starts
  pub restart_count : q.restart_count ≤ p.restart_count

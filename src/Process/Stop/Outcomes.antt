-- ===== src/Process/Stop/Outcomes.antt =====
-- What `Stop` does in each state, and how a run that it asked to end is settled
-- (internal/process/process.go).
use supavisor.Prelude.{
  ℕ, ◌≡◌, ◌≢◌, ◌⊎◌, Bool, true, ◌&&◌, Option, none, some, [], In, if◌then◌else◌, arith,
}
use supavisor.Process.{Process, stopped, stopping, backoff, is_stopped}
use supavisor.Process.Probe.{clear_health}
use supavisor.Process.Stop.{stop_done, mark_stop, stop_begin, signal_group, close_channel}
use supavisor.Process.Monitor.Settling.{clear_health-config}

-- Nothing runs in these states, though a monitor may be waiting to restart the program.
abbrev IsIdle : Process → Type 0
IsIdle p = (is_stopped p.state ≡ true) ⊎ (p.state ≡ backoff)

clear_health-channels :
    (run : Option ℕ) (p : Process)
    → ((clear_health run p).closed ≡ p.closed)
      × ((clear_health run p).canceled ≡ p.canceled)
      × ((clear_health run p).cmd ≡ p.cmd)
      × ((clear_health run p).pid ≡ p.pid)
      × ((clear_health run p).monitor_done ≡ p.monitor_done)
      × ((clear_health run p).stop_requested ≡ p.stop_requested)
unfolding clear_health
clear_health-channels none p = ground arith
clear_health-channels (some run) p = ground arith

-- What every `Stop` does before it looks at the state.
pub record IsMarked (p q : Process) : Type 0 where
  pub asked : q.stopped_externally ≡ true
  pub taken : q.stop_requested ≡ none
  pub woken : (c : ℕ) → p.stop_requested ≡ some c → In c q.closed
  pub completed : q.completed ≡ p.completed

-- The process when `stopHealthChecks` is called.
abbrev pub marked : Process → Process
marked p =
    close_channel p.stop_requested (record p { stopped_externally = true; stop_requested = none })

-- The fields that the rest of `Stop` reads are not changed by the marks.
mark_stop_lem :
    (p : Process)
    → IsMarked p (mark_stop p)
      × ((mark_stop p).cmd ≡ p.cmd)
      × ((mark_stop p).pid ≡ p.pid)
      × ((mark_stop p).monitor_done ≡ p.monitor_done)
      × ((mark_stop p).config ≡ p.config)
unfolding mark_stop
mark_stop_lem p = ground (
  arith,
  clear_health-config p.health_cancel (marked p),
  clear_health-channels p.health_cancel (marked p),
)

-- Every `Stop` marks the process and wakes the monitor that waits on the channel. With nothing
-- running it cancels the context, closes the logs and is done in STOPPED, sending no signal. Else
-- the process is STOPPING, and the stop signal goes to its group if that is alive.
pub stop_begin_lem :
    (alive : Bool) (p : Process)
    → let (q, plan, signals) = stop_begin alive p in
      IsMarked p q
      × (IsIdle p
          → (q.state ≡ stopped)
            × (q.streams ≡ [])
            × (plan ≡ stop_done)
            × (signals ≡ [])
            × ((c : ℕ) → p.cancel ≡ some c → In c q.canceled))
      × (¬ IsIdle p
          → (q.state ≡ stopping)
            × (plan ≢ stop_done)
            × (signals ≡ (if p.cmd && alive then signal_group p.pid p.config.stop_signal else [])))
unfolding stop_begin
stop_begin_lem alive p = ground (arith, mark_stop_lem p)

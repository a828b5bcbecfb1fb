-- ===== src/Process/Monitor/CrashLoop.antt =====
-- max_restarts bounds a crash loop (internal/process/process.go, `monitor`, `maybeRestart`).
use supavisor.Prelude.{
  ◌+◌, ◌-◌, ◌<◌, ◌≡◌, refl, ap, ◌∙◌, Bool, true, false, none, some, List, [], ◌∷◌, arith, length,
}
use supavisor.Prelude.Int.{pos, ◌≤ℤ◌}
use supavisor.Config.{ProgramConfig}
use supavisor.Process.{Process, exited, starting, backoff, fatal, set_state}
use supavisor.Process.Start.{StartEnv, Started, start}
use supavisor.Process.Start.Outcomes.{IsBusy, start-Outcome}
use supavisor.Process.Monitor.{
  healthy_uptime, exit_code_of_status, monitor_exit, should_restart, restart_begin, restart_end,
  backoff_over, Round, monitor, maybe_restart, after_exit, fatal_on_error,
}
use supavisor.Process.Monitor.Settling.{clear_health-config}

-- The run ends on its own, in a way that the policy answers with a restart, and before
-- `healthyUptime`; nothing ends the backoff early.
pub record Crashes (r : Round) (p : Process) : Type 0 where
  pub busy : IsBusy p
  pub wanted : p.stopped_externally ≡ false
  pub retried : should_restart p.config.autorestart (exit_code_of_status r.status) ≡ true
  pub short : r.now - p.start_time < healthy_uptime
  pub waited : r.wait ≡ backoff_over

-- What the exit of such a run leaves for `maybeRestart`.
crash-exit :
    (r : Round) (p : Process)
    → Crashes r p
    → let q = (monitor_exit r.status r.now p).0 in
      ((monitor_exit r.status r.now p).1 ≡ true)
      × (q.state ≡ exited)
      × (q.config ≡ p.config)
      × (q.restart_count ≡ p.restart_count)
      × (q.stopped_externally ≡ false)
      × (q.exit_code ≡ exit_code_of_status r.status)
unfolding monitor_exit
crash-exit r p c = ground (arith, clear_health-config p.health_cancel p)

restart_begin-fatal :
    (q : Process)
    → should_restart q.config.autorestart q.exit_code ≡ true
    → q.config.max_restarts ≡ pos q.restart_count
    → restart_begin q ≡ (set_state fatal q, none)
unfolding restart_begin
restart_begin-fatal q h m = rw (h, m) (ground arith)

restart_begin-again :
    (q : Process)
    → should_restart q.config.autorestart q.exit_code ≡ true
    → pos (q.restart_count + 1) ≤ℤ q.config.max_restarts
    → restart_begin q
      ≡ (record q { restart_count = q.restart_count + 1 }, some (q.restart_count + 1))
unfolding restart_begin
restart_begin-again q h m = rw h (ground arith)

after_exit-true :
    (r : Round) (x : Process × Bool) → x.1 ≡ true → after_exit r x ≡ maybe_restart r x.0
after_exit-true r (q, true) h = refl
after_exit-true r (q, false) h = cc

monitor-crash :
    (r : Round) (p : Process)
    → Crashes r p
    → monitor r p ≡ maybe_restart r (monitor_exit r.status r.now p).0
unfolding monitor
monitor-crash r p c = after_exit-true r (monitor_exit r.status r.now p) (crash-exit r p c).0

-- A crash when max_restarts attempts have been used up leaves the process FATAL.
monitor-fatal :
    (r : Round) (p : Process)
    → Crashes r p
    → p.config.max_restarts ≡ pos p.restart_count
    → (monitor r p).state ≡ fatal
unfolding maybe_restart set_state
monitor-fatal r p c h =
    let q = (monitor_exit r.status r.now p).0 in
    let (offered, ended, cfg, count, wanted, code) = crash-exit r p c in
    rw (monitor-crash r p c)
      (rw (restart_begin-fatal q (rw (cfg, code) c.retried) (rw (cfg, count) h)) refl)

restart_end-again :
    (r : Round) (q : Process)
    → r.wait ≡ backoff_over
    → q.state ≡ exited
    → q.stopped_externally ≡ false
    → restart_end r.env r.wait q ≡ fatal_on_error (start r.env (set_state backoff q))
unfolding restart_end
restart_end-again r q w e s = rw w (rw s (rw e refl))

fatal_on_error-none : (x : Started) → x.1 ≡ none → fatal_on_error x ≡ x.0
fatal_on_error-none (q, none) h = refl
fatal_on_error-none (q, some e) h = cc

backoff-idle : (q : Process) → ¬ IsBusy (set_state backoff q)
unfolding set_state
backoff-idle q h = ground arith

backoff-count : (q : Process) → (set_state backoff q).restart_count ≡ q.restart_count
unfolding set_state
backoff-count q = refl

backoff-config : (q : Process) → (set_state backoff q).config ≡ q.config
unfolding set_state
backoff-config q = refl

backoff-state : (q : Process) → (set_state backoff q).state ≡ backoff
unfolding set_state
backoff-state q = refl

start-again :
    (env : StartEnv) (q : Process)
    → (start env (set_state backoff q)).1 ≡ none
    → let u = fatal_on_error (start env (set_state backoff q)) in
      (u.state ≡ starting)
      × (u.stopped_externally ≡ false)
      × (u.restart_count ≡ q.restart_count)
      × (u.config ≡ q.config)
start-again env q ok =
    let o = start-Outcome env (set_state backoff q) (backoff-idle q) in
    rw (fatal_on_error-none (start env (set_state backoff q)) ok) (
      o.ok_state ok,
      o.ok_wanted ok,
      o.restarts_kept ∙ backoff-count q,
      o.config ∙ backoff-config q,
    )

-- A crash below the limit, after which the new start succeeds: STARTING again, with one more
-- restart counted.
monitor-again :
    (r : Round) (p : Process)
    → Crashes r p
    → pos (p.restart_count + 1) ≤ℤ p.config.max_restarts
    → ((q : Process) → q.config ≡ p.config → q.state ≡ backoff → (start r.env q).1 ≡ none)
    → let q = monitor r p in
      (q.state ≡ starting)
      × (q.stopped_externally ≡ false)
      × (q.restart_count ≡ p.restart_count + 1)
      × (q.config ≡ p.config)
unfolding maybe_restart
monitor-again r p c h ok =
    let q = (monitor_exit r.status r.now p).0 in
    let (offered, ended, cfg, count, wanted, code) = crash-exit r p c in
    let q' = record q { restart_count = q.restart_count + 1 } in
    let started = ok (set_state backoff q') (backoff-config q' ∙ cfg) (backoff-state q') in
    let (s, a, n, g) = start-again r.env q' started in
    rw (monitor-crash r p c) (
      rw (restart_begin-again q (rw (cfg, code) c.retried) (rw (cfg, count) h))
        (rw (restart_end-again r q' c.waited ended wanted) (s, a, n ∙ rw count, g ∙ cfg)))

-- Every round of the loop crashes as `Crashes` says, and the starts succeed.
abbrev AllCrash : List Round → Process → Type 0
AllCrash [] p = Unit
AllCrash (r ∷ rs) p =
    Crashes r p
    × ((q : Process) → q.config ≡ p.config → q.state ≡ backoff → (start r.env q).1 ≡ none)
    × AllCrash rs (monitor r p)

-- The monitors of successive runs, one after the other.
unfoldable pub crash_loop : List Round → Process → Process
crash_loop [] p = p
crash_loop (r ∷ rs) p = crash_loop rs (monitor r p)

-- A program whose runs all end on their own within healthyUptime, with an exit that its policy
-- answers by a restart, is started again once for each restart that its limit leaves, if every
-- backoff is waited out and every new start succeeds. The crash after those leaves it FATAL.
pub crash_loop-fatal :
    (rounds : List Round) (p : Process)
    → AllCrash rounds p
    → p.config.max_restarts ≡ pos (p.restart_count + length rounds)
    → (last : Round) → Crashes last (crash_loop rounds p)
    → ((crash_loop rounds p).restart_count ≡ p.restart_count + length rounds)
      × ((monitor last (crash_loop rounds p)).state ≡ fatal)
unfolding crash_loop
crash_loop-fatal [] p all limit last c =
    (omega arith, monitor-fatal last p c (limit ∙ ap pos (omega arith)))
crash_loop-fatal (r ∷ rs) p all limit last c =
    let (s, a, n, g) = monitor-again r p all.0 (rw limit (omega arith)) all.1 in
    let (count, end) =
      crash_loop-fatal rs (monitor r p) all.2
        (ap (λ (g : ProgramConfig). g.max_restarts) g ∙ limit ∙ ap pos (omega arith)) last c in
    (omega arith, end)

-- ===== src/Process/Probe.antt =====
-- Health checks of a run, in internal/process/health.go: `startHealthChecks`, `stopHealthChecks`,
-- `newProbe`, and `probeLoop` as the fold of its body over the attempts' results.
pub mod Verdict
use supavisor.Prelude.{
  ℕ, zero, suc, ◌+◌, ◌≤◌, ◌<◌, ◌≡◌, refl, ◌⊎◌, Bool, true, false, not, ◌&&◌, ◌||◌, Option, none,
  some, List, [], ◌∷◌, ◌++◌, if◌then◌else◌, Str, is_empty, arith,
}
use supavisor.Prelude.Int.{ℤ, pos, ltb_ℤ, ◌≤ℤ◌}
use supavisor.Config.{HealthCheck}
use supavisor.Process.{
  Process, Health, health_none, health_starting, health_healthy, health_unhealthy, set_health,
  call_cancel,
}

pub data ProbeKind : Type 0 where
  exec_probe tcp_probe http_probe : Str → ProbeKind

-- `none` is the error that the check has no target.
unfoldable new_probe : HealthCheck → Option ProbeKind
new_probe check =
    if not (is_empty check.exec)
    then some (exec_probe check.exec)
    else if not (is_empty check.tcp)
    then some (tcp_probe check.tcp)
    else if not (is_empty check.http)
    then some (http_probe check.http)
    else none

unfoldable pub begin_probing : Option ProbeKind → ℕ → Process → Process
unfolding set_health
begin_probing none run p = p
begin_probing (some kind) run p = set_health health_starting (record p { health_cancel = some run })

unfoldable start_for : Option HealthCheck → ℕ → Process → Process
unfolding begin_probing new_probe
start_for none run p = p
start_for (some check) run p = begin_probing (new_probe check) run p

unfoldable pub start_health_checks : ℕ → Process → Process
unfolding start_for
start_health_checks run p = start_for p.config.health_check run p

unfoldable pub clear_health : Option ℕ → Process → Process
unfolding set_health
clear_health none p = p
clear_health (some run) p = set_health health_none (record p { health_cancel = none })

unfoldable pub stop_health_checks : Process → Process
unfolding clear_health
stop_health_checks p = clear_health p.health_cancel p

-- The variables of `probeLoop`.
pub record ProbeLoop : Type 0 where
  pub ever_healthy : Bool
  pub failures : ℕ

-- One attempt: whether the probe returned nil, and whether the clock had reached `graceEnd`.
pub record Attempt : Type 0 where
  pub passed : Bool
  pub grace_over : Bool

abbrev pub probe_start : ProbeLoop
probe_start = record { ever_healthy = false; failures = 0 }

-- The switch of the loop, for an attempt during which the context was not canceled. The second
-- result is the argument of `setHealth`, where it is called.
unfoldable pub probe_attempt : ℤ → Attempt → ProbeLoop → ProbeLoop × Option Health
probe_attempt retries a l =
    if a.passed then (record { ever_healthy = true; failures = 0 }, some health_healthy) else (
      record l { failures = l.failures + 1 },
      if not (ltb_ℤ (pos (l.failures + 1)) retries) && (l.ever_healthy || a.grace_over)
          then some health_unhealthy
          else none,
    )

abbrev pub apply_health : Option Health → Process → Process
apply_health none p = p
apply_health (some h) p = set_health h p

unfoldable pub probe_loop : ℤ → List Attempt → ProbeLoop → Process → Process
probe_loop retries [] l p = p
probe_loop retries (a ∷ later) l p =
    let (l', h) = probe_attempt retries a l in probe_loop retries later l' (apply_health h p)

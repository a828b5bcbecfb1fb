-- ===== src/Config/Program/Valid.antt =====
-- What the daemon may rely on in a program's settings (internal/config/config.go,
-- `convertProgram`; health.go, `convertHealthCheck`).
use supavisor.Prelude.{◌≡◌, ◌≢◌, Option, none, some, [], Any}
use supavisor.Prelude.Int.{pos, ◌≤ℤ◌}
use supavisor.Config.{HealthCheck, ProgramConfig}
use supavisor.Config.Text.{trim_space}
use supavisor.Config.Signals.{stop_signals}
use supavisor.Config.Health.{targets, one_target}

pub record IsValidCheck (check : HealthCheck) : Type 0 where
  pub one_target : targets check ≡ 1
  pub interval : pos 1 ≤ℤ check.interval
  pub timeout : pos 1 ≤ℤ check.timeout
  pub start_period : pos 0 ≤ℤ check.start_period
  pub retries : pos 1 ≤ℤ check.retries

abbrev HasValidCheck : Option HealthCheck → Type 0
HasValidCheck none = Unit
HasValidCheck (some check) = IsValidCheck check

pub record IsValid (cfg : ProgramConfig) : Type 0 where
  pub command : cfg.command ≢ []
  pub user : trim_space cfg.user ≡ []
  pub start_secs : pos 0 ≤ℤ cfg.start_secs
  pub stop_wait_secs : pos 0 ≤ℤ cfg.stop_wait_secs
  pub max_restarts : pos 0 ≤ℤ cfg.max_restarts
  pub stop_signal : Any (λ entry. entry.1 ≡ cfg.stop_signal) stop_signals
  pub health_check : HasValidCheck cfg.health_check

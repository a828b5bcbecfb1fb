-- ===== src/Config.antt =====
-- The configuration that the daemon runs on: the types of internal/config/config.go, dependency.go
-- and health.go. A `time.Duration` is a number of nanoseconds.
pub mod DependsOn
pub mod Result
pub mod Text
pub mod Sizes
pub mod Signals
pub mod Program
pub mod Health
pub mod Directories
pub mod Files
pub mod Circular
pub mod Validate
use supavisor.Prelude.{ℕ, ◌+◌, ◌*◌, Bool, Option, List, map, Str, Dict}
use supavisor.Prelude.Int.{ℤ}

pub data RestartPolicy : Type 0 where
  restart_always restart_never restart_unexpected : RestartPolicy

pub data DependencyCondition : Type 0 where
  condition_started condition_healthy condition_completed : DependencyCondition

pub record Dependency : Type 0 where
  pub name : Str
  pub condition : DependencyCondition

pub record HealthCheck : Type 0 where
  pub exec : Str
  pub tcp : Str
  pub http : Str
  pub interval : ℤ
  pub timeout : ℤ
  pub start_period : ℤ
  pub retries : ℤ

pub record ProgramConfig : Type 0 where
  pub environment : Dict Str
  pub health_check : Option HealthCheck
  pub name : Str
  pub command : Str
  pub directory : Str
  pub autorestart : RestartPolicy
  pub stdout_logfile : Str
  pub stderr_logfile : Str
  pub user : Str
  pub depends_on : List Dependency
  pub autostart : Bool
  pub priority : ℤ
  pub start_secs : ℤ
  pub stop_signal : ℕ
  pub stop_wait_secs : ℤ
  pub max_restarts : ℤ
  pub stdout_logfile_max_bytes : ℤ
  pub stdout_logfile_backups : ℤ
  pub stdout_logfile_max_age : ℤ
  pub stderr_logfile_max_bytes : ℤ
  pub stderr_logfile_backups : ℤ
  pub stderr_logfile_max_age : ℤ

pub record SupavisorConfig : Type 0 where
  pub log_file : Str
  pub pid_file : Str
  pub socket : Str
  pub socket_group : Str
  pub log_format : Str
  pub log_level : Str

pub record Config : Type 0 where
  pub programs : Dict ProgramConfig
  pub source_path : Str
  pub supavisor : SupavisorConfig

unfoldable pub dependency_names : ProgramConfig → List Str
dependency_names p = map (λ dep. dep.name) p.depends_on

abbrev pub second : ℕ
second = 1000000000

-- The numbers of the signals that the code names.
abbrev pub sighup : ℕ
sighup = 1

abbrev pub sigint : ℕ
sigint = 2

abbrev pub sigquit : ℕ
sigquit = 3

abbrev pub sigkill : ℕ
sigkill = 9

abbrev pub sigusr1 : ℕ
sigusr1 = 10

abbrev pub sigusr2 : ℕ
sigusr2 = 12

abbrev pub sigterm : ℕ
sigterm = 15

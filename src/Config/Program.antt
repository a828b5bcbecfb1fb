-- ===== src/Config/Program.antt =====
-- One program's settings: `convertProgram` and `convertLogging` of internal/config/config.go. The
-- loop over the three settings that must not be negative ranges over a map, so the order in which
-- it visits them is an argument, `visit`.
pub mod Valid
use supavisor.Prelude.{
  ℕ, ◌+◌, ◌*◌, ◌≡◌, Bool, true, false, not, Option, none, some, List, [], ◌∷◌, if◌then◌else◌, Str,
  text, str_eq, is_empty, Dict, arith,
}
use supavisor.Prelude.Int.{ℤ, pos, ltb_ℤ}
use supavisor.Config.{
  RestartPolicy, restart_always, restart_never, restart_unexpected, Dependency, ProgramConfig,
}
use supavisor.Config.Result.{
  Result, ok, err, ◌>>=◌, ◌>>◌, guard, command_required, invalid_autorestart, user_not_implemented,
  must_not_be_negative,
}
use supavisor.Config.Text.{trim_space}
use supavisor.Config.Sizes.{parse_bytes}
use supavisor.Config.Signals.{parse_signal}
use supavisor.Config.Health.{Parsers, HealthCheckFile, int_or_default, convert_health_check}

pub record ProgramFile : Type 0 where
  pub environment : Dict Str
  pub health_check : Option HealthCheckFile
  pub autostart : Option Bool
  pub priority : Option ℤ
  pub start_secs : Option ℤ
  pub stop_wait_secs : Option ℤ
  pub max_restarts : Option ℤ
  pub stdout_logfile_backups : Option ℤ
  pub stdout_logfile_max_age : Option ℤ
  pub stderr_logfile_backups : Option ℤ
  pub stderr_logfile_max_age : Option ℤ
  pub command : Str
  pub directory : Str
  pub autorestart : Str
  pub stop_signal : Str
  pub stdout_logfile : Str
  pub stderr_logfile : Str
  pub stdout_logfile_max_bytes : Str
  pub stderr_logfile_max_bytes : Str
  pub user : Str
  pub depends_on : List Dependency

abbrev pub default_string : Str → Str → Str
default_string s def = if is_empty s then def else s

abbrev default_start_secs : ℤ
default_start_secs = pos 1

abbrev default_stop_wait_secs : ℤ
default_stop_wait_secs = pos 10

abbrev default_max_restarts : ℤ
default_max_restarts = pos 3

abbrev default_priority : ℤ
default_priority = pos 999

abbrev default_log_file_backups : ℤ
default_log_file_backups = pos 10

unfoldable pub parse_restart_policy : Str → Result RestartPolicy
parse_restart_policy raw =
    let policy = default_string raw (text "unexpected") in
    if str_eq policy (text "always")
    then ok restart_always
    else if str_eq policy (text "never")
    then ok restart_never
    else if str_eq policy (text "unexpected")
    then ok restart_unexpected
    else err (invalid_autorestart policy)

pub data Setting : Type 0 where
  set_start_secs set_stop_wait_secs set_max_restarts : Setting

abbrev setting_name : Setting → Str
setting_name set_start_secs = text "startsecs"
setting_name set_stop_wait_secs = text "stopwaitsecs"
setting_name set_max_restarts = text "max_restarts"

abbrev pub setting_value : ProgramFile → Setting → ℤ
setting_value raw set_start_secs = int_or_default raw.start_secs default_start_secs
setting_value raw set_stop_wait_secs = int_or_default raw.stop_wait_secs default_stop_wait_secs
setting_value raw set_max_restarts = int_or_default raw.max_restarts default_max_restarts

unfoldable pub check_settings : ProgramFile → List Setting → Result (Unit {0})
check_settings raw [] = ok tt
check_settings raw (s ∷ later) =
    let rest = check_settings raw later in
    if ltb_ℤ (setting_value raw s) (pos 0)
    then err (must_not_be_negative (setting_name s))
    else rest

-- `loggingDefaults`
pub record LoggingDefaults : Type 0 where
  pub stdout_max_bytes : ℤ
  pub stderr_max_bytes : ℤ
  pub stdout_backups : ℤ
  pub stderr_backups : ℤ

unfoldable pub convert_logging : ProgramFile → Result LoggingDefaults
convert_logging raw = do
  stdout ← parse_bytes (text "stdout_logfile_maxbytes") raw.stdout_logfile_max_bytes
  stderr ← parse_bytes (text "stderr_logfile_maxbytes") raw.stderr_logfile_max_bytes
  ok (record {
    stdout_max_bytes = stdout;
    stderr_max_bytes = stderr;
    stdout_backups = int_or_default raw.stdout_logfile_backups default_log_file_backups;
    stderr_backups = int_or_default raw.stderr_logfile_backups default_log_file_backups;
  })

abbrev bool_or_default : Option Bool → Bool → Bool
bool_or_default none fallback = fallback
bool_or_default (some b) fallback = b

module _ (go : Parsers) (visit : List Setting) where
  unfoldable pub convert_program : Str → ProgramFile → Result ProgramConfig
  convert_program name raw = do
    guard (not (is_empty raw.command)) command_required
    autorestart ← parse_restart_policy raw.autorestart
    guard (is_empty (trim_space raw.user)) (user_not_implemented raw.user)
    stop_signal ← parse_signal raw.stop_signal
    check_settings raw visit
    logging ← convert_logging raw
    health_check ← convert_health_check go raw.health_check
    ok (record {
      environment = raw.environment;
      health_check = health_check;
      name = name;
      command = raw.command;
      directory = raw.directory;
      autorestart = autorestart;
      stdout_logfile = raw.stdout_logfile;
      stderr_logfile = raw.stderr_logfile;
      user = raw.user;
      depends_on = raw.depends_on;
      autostart = bool_or_default raw.autostart true;
      priority = int_or_default raw.priority default_priority;
      start_secs = setting_value raw set_start_secs;
      stop_signal = stop_signal;
      stop_wait_secs = setting_value raw set_stop_wait_secs;
      max_restarts = setting_value raw set_max_restarts;
      stdout_logfile_max_bytes = logging.stdout_max_bytes;
      stdout_logfile_backups = logging.stdout_backups;
      stdout_logfile_max_age = int_or_default raw.stdout_logfile_max_age (pos 0);
      stderr_logfile_max_bytes = logging.stderr_max_bytes;
      stderr_logfile_backups = logging.stderr_backups;
      stderr_logfile_max_age = int_or_default raw.stderr_logfile_max_age (pos 0);
    })

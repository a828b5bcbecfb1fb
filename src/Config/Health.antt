-- ===== src/Config/Health.antt =====
-- Health checks in the configuration: `convertHealthCheck`, `validateProbeTarget` and
-- `parseDuration` of internal/config/health.go. `time.ParseDuration`, `net.SplitHostPort` and
-- `url.Parse` are parameters: what they return for a text.
use supavisor.Prelude.{
  ℕ, zero, suc, ◌+◌, ◌*◌, Bool, false, not, ◌&&◌, ◌||◌, Option, none, some, [], ◌∷◌, if◌then◌else◌,
  Str, text, str_eq, is_empty,
}
use supavisor.Prelude.Int.{ℤ, pos, ltb_ℤ}
use supavisor.Config.{HealthCheck, second}
use supavisor.Config.Result.{
  Result, ok, err, ◌>>=◌, ◌>>◌, guard, no_probe_target, many_probe_targets, invalid_tcp,
  invalid_http, invalid_duration, interval_not_positive, timeout_not_positive,
  start_period_negative, too_few_retries,
}
use supavisor.Config.Text.{trim_space}

-- The scheme and the host of an URL.
pub record Url : Type 0 where
  pub scheme : Str
  pub host : Str

pub record Parsers : Type 0 where
  pub duration : Str → Option ℤ
  pub splits_host_port : Str → Bool
  pub url : Str → Option Url

pub record HealthCheckFile : Type 0 where
  pub retries : Option ℤ
  pub exec : Str
  pub tcp : Str
  pub http : Str
  pub interval : Str
  pub timeout : Str
  pub start_period : Str

abbrev pub int_or_default : Option ℤ → ℤ → ℤ
int_or_default none fallback = fallback
int_or_default (some configured) fallback = configured

abbrev default_probe_interval : ℕ
default_probe_interval = 2 * second

abbrev default_probe_timeout : ℕ
default_probe_timeout = 5 * second

abbrev default_probe_retries : ℕ
default_probe_retries = 3

abbrev or_error : Str → Str → Option ℤ → Result ℤ
or_error field value none = err (invalid_duration field value)
or_error field value (some d) = ok d

abbrev count_set : Str → ℕ
count_set [] = 0
count_set (c ∷ s) = 1

-- How many kinds of probe are configured.
abbrev pub targets : HealthCheck → ℕ
targets check = count_set check.exec + count_set check.tcp + count_set check.http

abbrev is_http : Option Url → Bool
is_http none = false
is_http (some u) =
    (str_eq u.scheme (text "http") || str_eq u.scheme (text "https")) && not (is_empty u.host)

abbrev pub one_target : ℕ → Result (Unit {0})
one_target zero = err no_probe_target
one_target (suc zero) = ok tt
one_target (suc (suc n)) = err many_probe_targets

-- The check before the durations are read: those fields are zero.
abbrev pub raw_check : HealthCheckFile → HealthCheck
raw_check raw = record {
  exec = trim_space raw.exec;
  tcp = trim_space raw.tcp;
  http = trim_space raw.http;
  interval = pos 0;
  timeout = pos 0;
  start_period = pos 0;
  retries = int_or_default raw.retries (pos default_probe_retries);
}

-- The final switch.
unfoldable pub check_ranges : HealthCheck → Result HealthCheck
check_ranges check = do
  guard (ltb_ℤ (pos 0) check.interval) interval_not_positive
  guard (ltb_ℤ (pos 0) check.timeout) timeout_not_positive
  guard (not (ltb_ℤ check.start_period (pos 0))) start_period_negative
  guard (not (ltb_ℤ check.retries (pos 1))) too_few_retries
  ok check

module _ (go : Parsers) where
  unfoldable pub parse_duration : Str → Str → ℤ → Result ℤ
  parse_duration field value def =
      if is_empty (trim_space value)
      then ok def
      else or_error field value (go.duration (trim_space value))

  unfoldable pub validate_probe_target : HealthCheck → Result (Unit {0})
  validate_probe_target check = do
    one_target (targets check)
    guard (is_empty check.tcp || go.splits_host_port check.tcp) (invalid_tcp check.tcp)
    guard (is_empty check.http || is_http (go.url check.http)) (invalid_http check.http)

  unfoldable pub convert_check : HealthCheckFile → Result HealthCheck
  convert_check raw = do
    validate_probe_target (raw_check raw)
    interval ←
        parse_duration (text "health_check.interval") raw.interval (pos default_probe_interval)
    timeout ← parse_duration (text "health_check.timeout") raw.timeout (pos default_probe_timeout)
    start_period ← parse_duration (text "health_check.start_period") raw.start_period (pos 0)
    check_ranges (record (raw_check raw) {
      interval = interval;
      timeout = timeout;
      start_period = start_period;
    })

  unfoldable pub convert_health_check : Option HealthCheckFile → Result (Option HealthCheck)
  convert_health_check none = ok none
  convert_health_check (some raw) = do check ← convert_check raw; ok (some check)

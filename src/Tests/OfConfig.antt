-- ===== src/Tests/OfConfig.antt =====
-- Tests of the models of internal/config.
use supavisor.Prelude.{
  ◌*◌, ◌<◌, ◌≡◌, refl, true, none, some, List, [], ◌∷◌, ◌++◌, text, arith, str_eq, lookup,
}
use supavisor.Prelude.Int.{pos, negsuc, to_int64, two_63}
use supavisor.Config.{sigusr1, sigterm, ProgramConfig, restart_unexpected}
use supavisor.Config.{Dependency, DependencyCondition, condition_started, condition_completed}
use supavisor.Config.DependsOn.{node, mapping_node, unmarshal_yaml}
use supavisor.Config.DependsOn.Forms.{written, unmarshal_yaml-written}
use supavisor.Prelude.{Str}
use supavisor.Config.Result.{ok, err, invalid_bytes, must_not_be_negative}
use supavisor.Config.Text.{trim_space, to_upper, strip_suffix, strip_prefix, parse_int}
use supavisor.Config.Text.Digits.{decimal}
use supavisor.Config.Sizes.{parse_bytes, split_unit}
use supavisor.Config.Sizes.Values.{kilobyte, suffix, factor, parse_bytes_lem}
use supavisor.Config.Signals.{parse_signal}
use supavisor.Config.Health.{Parsers, convert_health_check}
use supavisor.Config.Program.{
  ProgramFile, Setting, set_start_secs, set_stop_wait_secs, set_max_restarts, convert_program,
  parse_restart_policy, check_settings, convert_logging,
}

-- What the definitions compute with.
program : Unit {0}
unfolding parse_bytes split_unit parse_int trim_space to_upper strip_suffix str_eq strip_prefix
    parse_signal lookup convert_program parse_restart_policy check_settings convert_logging
    convert_health_check
program = tt

size_with_blanks : parse_bytes (text "f") (text " 10 mb ") ≡ ok (pos 10485760)
unfolding program
size_with_blanks = refl

size_unreadable :
    parse_bytes (text "f") (text "10 mbs") ≡ err (invalid_bytes (text "f") (text "10 mbs"))
unfolding program
size_unreadable = refl

-- 2 ^ 34 GB is 2 ^ 64 bytes, which is read as 0: no limit at all.
size_wraps : parse_bytes (text "f") (text "17179869184GB") ≡ ok (pos 0)
unfolding program
size_wraps = refl

parse_bytes_lem_example :
    (parse_bytes (text "f") (text "12" ++ suffix kilobyte)
      ≡ ok (to_int64 (decimal (text "12") * factor kilobyte)))
    × (decimal (text "12") * factor kilobyte < two_63
        → parse_bytes (text "f") (text "12" ++ suffix kilobyte)
          ≡ ok (pos (decimal (text "12") * factor kilobyte)))
parse_bytes_lem_example =
    parse_bytes_lem (text "f") kilobyte (text "12") (λ e. cc) (refl, (refl, tt)) (omega arith)

signal_with_prefix : parse_signal (text " SigUsr1") ≡ ok sigusr1
unfolding program
signal_with_prefix = refl

abbrev go : Parsers
go = record { duration = λ s. none; splits_host_port = λ s. true; url = λ s. none }

abbrev plain : ProgramFile
plain = record {
  environment = [];
  health_check = none;
  autostart = none;
  priority = none;
  start_secs = none;
  stop_wait_secs = none;
  max_restarts = some (pos 0);
  stdout_logfile_backups = none;
  stdout_logfile_max_age = none;
  stderr_logfile_backups = none;
  stderr_logfile_max_age = none;
  command = text "/bin/serve";
  directory = [];
  autorestart = [];
  stop_signal = [];
  stdout_logfile = [];
  stderr_logfile = [];
  stdout_logfile_max_bytes = [];
  stderr_logfile_max_bytes = [];
  user = [];
  depends_on = [];
}

abbrev settings : List Setting
settings = set_max_restarts ∷ set_start_secs ∷ set_stop_wait_secs ∷ []

convert_program_negative :
    convert_program go settings (text "web") (record plain { start_secs = some (negsuc 0) })
    ≡ err (must_not_be_negative (text "startsecs"))
unfolding program
convert_program_negative = refl

abbrev converted : ProgramConfig
converted = record {
  environment = [];
  health_check = none;
  name = text "web";
  command = text "/bin/serve";
  directory = [];
  autorestart = restart_unexpected;
  stdout_logfile = [];
  stderr_logfile = [];
  user = [];
  depends_on = [];
  autostart = true;
  priority = pos 999;
  start_secs = pos 1;
  stop_signal = sigterm;
  stop_wait_secs = pos 10;
  max_restarts = pos 0;
  stdout_logfile_max_bytes = pos 52428800;
  stdout_logfile_backups = pos 10;
  stdout_logfile_max_age = pos 0;
  stderr_logfile_max_bytes = pos 52428800;
  stderr_logfile_backups = pos 10;
  stderr_logfile_max_age = pos 0;
}

abbrev dependency : Str → DependencyCondition → Dependency
dependency name condition = record { name = name; condition = condition }

unmarshal_yaml-written_example :
    unmarshal_yaml
      (λ n. none)
      (node mapping_node (text "!!map") [] (
        written (
          (true, dependency (text "db") condition_started)
          ∷ (true, dependency (text "init") condition_completed)
          ∷ [])))
    ≡ ok (
        dependency (text "db") condition_started
        ∷ dependency (text "init") condition_completed
        ∷ [])
unmarshal_yaml-written_example =
    unmarshal_yaml-written (λ n. none) (text "!!map") []
      ((true, dependency (text "db") condition_started)
        ∷ (true, dependency (text "init") condition_completed)
        ∷ [])

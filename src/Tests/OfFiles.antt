-- ===== src/Tests/OfFiles.antt =====
-- Tests of reading the configuration (internal/config/config.go).
use supavisor.Prelude.{
  ◌≡◌, ◌↔◌, refl, true, false, Option, none, some, List, [], ◌∷◌, Str, text, str_eq, str_le, lookup,
  insert, delete, keys, sort, insert_sorted, contains, Distinct, IsMap, if◌then◌else◌,
}
use supavisor.Prelude.Int.{pos}
use supavisor.Config.{Config, ProgramConfig}
use supavisor.Config.Result.{ok, err, duplicate_program, Result}
use supavisor.Config.Health.{Parsers, convert_health_check}
use supavisor.Config.Text.{
  split_last, strip_suffix, to_lower, trim_space, to_upper, strip_prefix, parse_int,
}
use supavisor.Config.Sizes.{parse_bytes, split_unit}
use supavisor.Config.Signals.{parse_signal}
use supavisor.Config.Program.{
  convert_program, parse_restart_policy, check_settings, convert_logging, ProgramFile, Setting,
  set_start_secs, set_stop_wait_secs, set_max_restarts,
}
use supavisor.Config.Files.{
  empty_section, Disk, decoded, Decoded, listing, parse_config, parse_config_file,
  parse_config_file_raw, merge_programs, merge_fragment, merge_fragments, origins_of,
  fragment_paths, is_supavisor_section_empty, list_fragment_files, fragment_dir,
}
use supavisor.Config.Files.Merged.{entries_of, parse_config_lem}
use supavisor.Tests.Samples.{web, db, program, daemon}
use supavisor.Config.Files.Entries.{defined}
use supavisor.Config.Files.Merging.{IsFrom}

abbrev pub go : Parsers
go = record { duration = λ s. none; splits_host_port = λ s. true; url = λ s. none }

abbrev pub settings : List Setting
settings = set_max_restarts ∷ set_start_secs ∷ set_stop_wait_secs ∷ []

abbrev written : ProgramFile
written = record {
  environment = [];
  health_check = none;
  autostart = none;
  priority = none;
  start_secs = none;
  stop_wait_secs = none;
  max_restarts = none;
  stdout_logfile_backups = none;
  stdout_logfile_max_age = none;
  stderr_logfile_backups = none;
  stderr_logfile_max_age = none;
  command = text "/bin/serve";
  directory = [];
  autorestart = [];
  stop_signal = [];
  stdout_logfile = [];
  stderr_logfile = [];
  stdout_logfile_max_bytes = [];
  stderr_logfile_max_bytes = [];
  user = [];
  depends_on = [];
}

-- `s.yml` defines `web`, and `s.d/db.yml` defines `db`.
abbrev read_file : Str → Option Str
read_file path =
    if str_eq path (text "s.yml")
    then some (text "w")
    else if str_eq path (text "s.d/db.yml")
    then some (text "d")
    else if str_eq path (text "s.d/web.yaml")
    then some (text "w")
    else none

abbrev decode : Str → Decoded
decode bytes =
    if str_eq bytes (text "w")
    then decoded (record { programs = (web, some written) ∷ []; supavisor = empty_section })
    else decoded (record { programs = (db, some written) ∷ []; supavisor = empty_section })

abbrev pub disk : Disk
disk = record {
  read_file = read_file;
  decode = decode;
  read_dir = λ dir. listing ((text "db.yml", false) ∷ (text "notes.txt", false) ∷ []);
}

abbrev read : Result Config
read = parse_config go settings disk (text "s.yml")

abbrev pub plain : Str → ProgramConfig
plain name = record (program name [] (pos 3)) {
  stdout_logfile_max_bytes = pos 52428800;
  stdout_logfile_backups = pos 10;
  stderr_logfile_max_bytes = pos 52428800;
  stderr_logfile_backups = pos 10;
}

abbrev pub cfg : Config
cfg = record {
  programs = (web, plain web) ∷ (db, plain db) ∷ [];
  source_path = text "s.yml";
  supavisor = record daemon {
    pid_file = text "/var/run/supavisor.pid";
    socket = text "/tmp/supavisor.sock";
  };
}

-- What the definitions compute with.
unfoldable pub daemons : Unit {0}
unfolding parse_config parse_config_file parse_config_file_raw merge_programs merge_fragment
    merge_fragments origins_of list_fragment_files fragment_dir fragment_paths
    is_supavisor_section_empty split_last strip_suffix to_lower parse_bytes split_unit parse_int
    trim_space to_upper str_eq str_le strip_prefix parse_signal lookup insert delete keys contains
    sort insert_sorted convert_program parse_restart_policy check_settings convert_logging
    convert_health_check
daemons = tt

pub config_read : read ≡ ok cfg
unfolding daemons
config_read = refl

parse_config_lem_example :
    (paths : List Str) × (list_fragment_files disk (fragment_dir (text "s.yml")) ≡ ok paths)
    × IsMap cfg.programs
    × Distinct (defined (entries_of go settings disk (text "s.yml" ∷ paths)))
    × ((a : Str) (prog : ProgramConfig)
        → (lookup a cfg.programs ≡ some prog)
          ↔ IsFrom go settings (entries_of go settings disk (text "s.yml" ∷ paths)) a prog)
    × (cfg.source_path ≡ text "s.yml")
parse_config_lem_example = parse_config_lem go settings disk (text "s.yml") cfg config_read

-- A fragment that defines `web` once more is refused.
abbrev crowded : Disk
crowded = record disk { read_dir = λ dir. listing ((text "web.yaml", false) ∷ []) }

duplicate_is_refused :
    parse_config go settings crowded (text "s.yml")
    ≡ err (duplicate_program web (text "s.yml") (text "s.d/web.yaml"))
unfolding daemons
duplicate_is_refused = refl

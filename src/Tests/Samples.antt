-- ===== src/Tests/Samples.antt =====
-- The inputs that the tests share.
use supavisor.Prelude.{true, false, none, some, List, [], ◌∷◌, Str, text}
use supavisor.Prelude.Int.{ℤ, pos}
use supavisor.Config.{
  restart_unexpected, Dependency, condition_started, ProgramConfig, SupavisorConfig, Config,
  sigterm,
}
use supavisor.Process.{Process, new_process}
use supavisor.Process.Start.{StartEnv}
use supavisor.Server.{Server, desired_running}

abbrev pub web : Str
web = text "web"

abbrev pub db : Str
db = text "db"

abbrev pub program : Str → List Dependency → ℤ → ProgramConfig
program name deps max_restarts = record {
  environment = [];
  health_check = none;
  name = name;
  command = text "/bin/serve";
  directory = [];
  autorestart = restart_unexpected;
  stdout_logfile = [];
  stderr_logfile = [];
  user = [];
  depends_on = deps;
  autostart = true;
  priority = pos 999;
  start_secs = pos 1;
  stop_signal = sigterm;
  stop_wait_secs = pos 10;
  max_restarts = max_restarts;
  stdout_logfile_max_bytes = pos 0;
  stdout_logfile_backups = pos 0;
  stdout_logfile_max_age = pos 0;
  stderr_logfile_max_bytes = pos 0;
  stderr_logfile_backups = pos 0;
  stderr_logfile_max_age = pos 0;
}

abbrev pub db_program : ProgramConfig
db_program = program db [] (pos 1)

abbrev pub web_program : ProgramConfig
web_program = program web (record { name = db; condition = condition_started } ∷ []) (pos 3)

abbrev pub daemon : SupavisorConfig
daemon = record {
  log_file = [];
  pid_file = text "/run/s.pid";
  socket = text "/run/s.sock";
  socket_group = [];
  log_format = text "text";
  log_level = text "info";
}

abbrev pub both : Config
both = record {
  programs = (web, web_program) ∷ (db, db_program) ∷ [];
  source_path = text "s.yml";
  supavisor = daemon;
}

abbrev pub only_db : Config
only_db = record {
  programs = (db, db_program) ∷ [];
  source_path = text "s.yml";
  supavisor = daemon;
}

abbrev pub opens_all : StartEnv
opens_all = record { can_open = λ path. true; child = some 41; now = 1000 }

abbrev pub new_db : Process
new_db = new_process db_program

abbrev pub server : Server
server = record {
  config = both;
  processes = (web, new_process web_program) ∷ (db, new_db) ∷ [];
  desired = (web, desired_running) ∷ (db, desired_running) ∷ [];
  inflight = [];
  blocked_reason = [];
  reconcile_now = false;
  state_dirty = false;
}

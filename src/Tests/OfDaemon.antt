-- ===== src/Tests/OfDaemon.antt =====
-- Tests of making the server and of its reloads (internal/server).
use supavisor.Prelude.{subst, ◌≡◌, refl, true, false, Bool, none, some, [], ◌∷◌, text}
use supavisor.Config.{dependency_names, Config, ProgramConfig}
use supavisor.Config.Files.{Disk, listing, parse_config}
use supavisor.Server.{
  desired_running, desired_stopped, set_desired, request_reconcile, mark_state_dirty, Server,
}
use supavisor.Server.Daemon.{
  reload, Reloading, populate, reload_begin, reload_end, nothing_changed, done, new_server,
}
use supavisor.Tests.Samples.{web, db}
use supavisor.Process.{new_process}
use supavisor.Config.Validate.{
  validate, validate_dependencies, check_programs, check_dependencies, validate_log_paths,
  claim_path, claim_all, validate_socket_path, sorted_program_names,
}
use supavisor.Config.Circular.{
  visit_all, validate_circular, check_circular_dependency, check_all_circular, visit_all,
}
use supavisor.Config.Directories.{ensure_log_directories, make_dirs, program_dirs, add_dir, get_dir}
use supavisor.Server.Shutdown.{build_dependency_graph, add_programs}
use supavisor.Graph.{
  add_node, topological_sort, in_degrees, count_present, sources, drain, release, update, link,
  unlink, without, adopt, adopt_all,
}
use supavisor.Server.Reload.{
  Diff, changed_daemon_setting, diff_programs, missing_from, changed_from, stop_for_reload,
  apply_programs, for_each, drop_program, replace_program, add_program,
}
use supavisor.Server.Requests.{stop_request}
use supavisor.Server.Daemon.Worlds.{
  Reach, step, here, asks_stop, reload_waits, reload_applies, World, Reach-Fits,
}
use supavisor.Server.Daemon.Stopping.{StopsAll, Reach-StopsAll}
use supavisor.Server.Daemon.Fitting.{Fits}
use supavisor.Server.Daemon.Answers.{IsAnswer, reload_lem}
use supavisor.Tests.OfFiles.{go, settings, disk, plain, cfg, daemons, config_read}

abbrev made : Server
made = record {
  config = cfg;
  processes = (web, new_process (plain web)) ∷ (db, new_process (plain db)) ∷ [];
  desired = (web, desired_running) ∷ (db, desired_running) ∷ [];
  inflight = [];
  blocked_reason = [];
  reconcile_now = false;
  state_dirty = false;
}

-- What making and reloading the server compute with.
reloads : Unit {0}
unfolding daemons visit_all new_server populate reload_begin reload_end nothing_changed stop_request
    validate validate_circular check_circular_dependency check_all_circular validate_dependencies
    check_programs check_dependencies validate_log_paths claim_path claim_all validate_socket_path
    ensure_log_directories make_dirs program_dirs add_dir get_dir build_dependency_graph
    add_programs dependency_names add_node topological_sort in_degrees count_present sources drain
    release changed_daemon_setting diff_programs missing_from changed_from stop_for_reload
    set_desired apply_programs for_each drop_program replace_program add_program request_reconcile
    mark_state_dirty new_process sorted_program_names update link unlink without adopt adopt_all
reloads = tt

server_made : new_server (λ dir. true) cfg ≡ done made
unfolding reloads
server_made = refl

abbrev never_equal : ProgramConfig → ProgramConfig → Bool
never_equal p q = false

never_equal_sound : (p q : ProgramConfig) → never_equal p q ≡ true → p ≡ q
never_equal_sound p q h = cc

-- The main file alone: `db` is gone, and `web` counts as changed.
abbrev emptied : Disk
emptied = record disk { read_dir = λ dir. listing [] }

abbrev alone : Config
alone = record cfg { programs = (web, plain web) ∷ [] }

abbrev plan : Diff
plan = record { added = []; removed = db ∷ []; changed = web ∷ [] }

abbrev waiting : Reloading
waiting = record {
  config = alone;
  diff = plan;
  previous = (web, desired_stopped) ∷ (db, desired_running) ∷ [];
}

abbrev stopped_web : Server
stopped_web = record made {
  desired = (web, desired_stopped) ∷ (db, desired_running) ∷ [];
  reconcile_now = true;
}

abbrev both_stopped : Server
both_stopped = record made {
  desired = (web, desired_stopped) ∷ (db, desired_stopped) ∷ [];
  reconcile_now = true;
}

abbrev reloaded : Server
reloaded = record {
  config = alone;
  processes = (web, new_process (plain web)) ∷ [];
  desired = (web, desired_stopped) ∷ [];
  inflight = [];
  blocked_reason = [];
  reconcile_now = true;
  state_dirty = true;
}

reload_begun :
    reload_begin never_equal
      (λ dir. true)
      (parse_config go settings emptied (text "s.yml"))
      stopped_web
    ≡ done (plan, some (waiting, both_stopped))
unfolding reloads
reload_begun = refl

reload_ended : reload_end waiting both_stopped ≡ reloaded
unfolding reloads
reload_ended = refl

abbrev Reached : World → Type 0
Reached w =
    Reach go settings (λ dir. true) never_equal (record { server = made; reloading = none }) w

web_stopped : (stop_request web made).0 ≡ stopped_web
unfolding reloads
web_stopped = refl

reached : Reached (record { server = reloaded; reloading = none })
reached =
    subst (λ s. Reached (record { server = s; reloading = none })) reload_ended
      (step
        (step
          (subst (λ s. Reached (record { server = s; reloading = none })) web_stopped
            (step here (asks_stop web)))
          (reload_waits emptied plan waiting both_stopped refl reload_begun))
        (reload_applies waiting refl))

Reach-Fits_example : Fits reloaded
Reach-Fits_example =
    Reach-Fits go settings (λ dir. true) never_equal never_equal_sound disk (text "s.yml") cfg made
      (record { server = reloaded; reloading = none }) config_read server_made reached

Reach-StopsAll_example : StopsAll reloaded
Reach-StopsAll_example =
    Reach-StopsAll go settings (λ dir. true) never_equal never_equal_sound disk (text "s.yml") cfg
      made (record { server = reloaded; reloading = none }) config_read server_made reached

reload_lem_example :
    let parsed = parse_config go settings emptied (text "s.yml") in
    let (t, answer) = reload never_equal (λ dir. true) parsed both_stopped stopped_web in
    IsAnswer never_equal parsed stopped_web t answer
reload_lem_example =
    reload_lem never_equal go settings emptied (λ dir. true) both_stopped stopped_web

-- A start of `web` that is asked for during the wait of the reload is undone by its end.
abbrev started_meanwhile : Server
started_meanwhile = record both_stopped {
  desired = (web, desired_running) ∷ (db, desired_stopped) ∷ [];
}

start_undone : (reload_end waiting started_meanwhile).desired ≡ (web, desired_stopped) ∷ []
unfolding reloads
start_undone = refl

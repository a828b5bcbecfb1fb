-- ===== src/Tests/OfServer.antt =====
-- Tests of the models of internal/server.
use supavisor.Prelude.{
  ◌≢◌, ◌↔◌, In, none, List, Str, Distinct, has, ◌≡◌, refl, ◌&&◌, not, Bool, true, some, [], ◌∷◌,
  text, str_eq, contains, lookup, insert, delete, keys, str_le, IsMap, ◌==◌, ltb, if◌then◌else◌,
}
use supavisor.Config.{ProgramConfig, sigterm, sigkill}
use supavisor.Process.{new_process, running}
use supavisor.Process.Stop.{signal_group}
use supavisor.Server.{
  Server, note_blocked, unsatisfied, check_condition, dependencies_of, dependencies_satisfied,
}
use supavisor.Server.Names.{program_names, sort_names, insert_name, precedes}
use supavisor.Server.Reconcile.{
  ActionKind, start_action, run_action, reconcile_process, reconcile_one, reconcile_all, reconcile,
  undisturbed,
}
use supavisor.Server.Reconcile.Decisions.{IsPartOf, programs_of, reconcile_lem}
use supavisor.Server.Reconcile.Visits.{Owes, Frame}
use supavisor.Server.Names.Order.{IsOrdered}
use supavisor.Server.Reload.{diff_programs, apply_programs}
use supavisor.Server.Reload.Plan.{differs, diff_programs_lem}
use supavisor.Server.Reload.Applied.{reloaded, apply_programs_lem}
use supavisor.Server.Orphans.{
  ChildRecord, ReapEnv, identify_orphans, signal_all, any_group_alive, kill_remaining,
  wait_for_orphans, stop_orphans, reap_orphans,
}
use supavisor.Tests.Samples.{web_program, new_db, web, db, both, only_db, server}

-- What a pass computes with.
pass : Unit {0}
unfolding reconcile reconcile_all reconcile_one reconcile_process run_action note_blocked
    unsatisfied check_condition dependencies_of dependencies_satisfied program_names sort_names
    insert_name precedes keys lookup insert delete str_eq str_le new_process
pass = tt

server-IsMap : IsMap server.processes
unfolding pass
server-IsMap = (refl, (refl, tt))

-- Only the program with no dependency that is still down is started.
pass_starts_db : reconcile (undisturbed server) server ≡ (db, start_action) ∷ []
unfolding pass
pass_starts_db = refl

-- What the visit of the second program finds once the first is up.
abbrev later : Server
later = record server {
  processes =
      (web, new_process web_program)
      ∷ (db, record new_db { state = running; cmd = true; pid = 41 })
      ∷ [];
}

-- The programs start in one pass if the first is RUNNING before the second is visited.
pass_starts_both :
    reconcile
      (λ name. if str_eq name web then undisturbed later name else undisturbed server name)
      server
    ≡ (db, start_action) ∷ (web, start_action) ∷ []
unfolding pass
pass_starts_both = refl

reconcile_lem_example :
    let visits = undisturbed server in
    ((name : Str) (kind : ActionKind)
      → (In (name, kind) (reconcile visits server))
        ↔ ((lookup name server.processes ≢ none) × Owes kind name (visits name)))
    × ((names : List Str) × IsPartOf (programs_of (reconcile visits server)) names
        × Distinct names
        × IsOrdered server.config.programs names)
    × ((name : Str) (kind : ActionKind)
        → In (name, kind) (reconcile visits server)
        → lookup name (reconcile_one name (visits name)).0.inflight ≡ some true)
    × ((name : Str) → Frame name (visits name).acted (reconcile_one name (visits name)).0)
reconcile_lem_example = reconcile_lem (undisturbed server) server server-IsMap

abbrev by_name : ProgramConfig → ProgramConfig → Bool
by_name p q = str_eq p.name q.name

only_db-IsMap : IsMap only_db.programs
unfolding pass
only_db-IsMap = (refl, tt)

diff_programs_lem_example :
    let d = diff_programs by_name both.programs only_db.programs in
    (contains d.added web
      ≡ (has (lookup web only_db.programs) && not (has (lookup web both.programs))))
    × (contains d.removed web
        ≡ (has (lookup web both.programs) && not (has (lookup web only_db.programs))))
    × (contains d.changed web
        ≡ differs by_name (lookup web both.programs) (lookup web only_db.programs))
diff_programs_lem_example =
    diff_programs_lem by_name both.programs only_db.programs web only_db-IsMap

apply_programs_lem_example :
    let s' =
      apply_programs only_db server.desired
        (diff_programs by_name server.config.programs only_db.programs)
        server in
    ((lookup web s'.processes, lookup web s'.desired)
      ≡ reloaded by_name
          (lookup web server.config.programs)
          (lookup web only_db.programs)
          (lookup web server.processes, lookup web server.desired)
          (lookup web server.desired))
    × (s'.config ≡ only_db)
unfolding pass
apply_programs_lem_example =
    apply_programs_lem by_name only_db server.desired server web only_db-IsMap refl refl

abbrev left_over : ChildRecord
left_over = record { name = db; start_token = text "77"; pid = 41 }

-- The second record's number now belongs to another process.
abbrev after_crash : ReapEnv
after_crash = record {
  state_file = text "/run/s.state";
  recorded = some (record {
    boot_id = text "b1";
    children = left_over ∷ record { name = web; start_token = text "78"; pid = 42 } ∷ [];
  });
  boot_id = text "b1";
  token_of = λ moment pid. if pid == 41 then some (text "77") else some (text "500");
  polls = (λ pid. true) ∷ (λ pid. true) ∷ [];
  alive = λ pid. pid == 41;
}

-- What startup computes with.
startup : Unit {0}
unfolding reap_orphans identify_orphans signal_all any_group_alive kill_remaining wait_for_orphans
    stop_orphans signal_group str_eq
startup = tt

reap_only_known :
    reap_orphans after_crash
    ≡ record { pid = 41; signal = sigterm } ∷ record { pid = 41; signal = sigkill } ∷ []
unfolding startup
reap_only_known = refl

-- From the third moment on, the number of the process that is signaled belongs to another one.
abbrev reused : ReapEnv
reused = record after_crash {
  token_of =
      λ moment pid. if pid == 41 && ltb moment 2 then some (text "77") else some (text "500");
}

stranger_killed :
    (reused.token_of 2 41 ≡ some (text "500"))
    × (reap_orphans reused
        ≡ record { pid = 41; signal = sigterm } ∷ record { pid = 41; signal = sigkill } ∷ [])
unfolding startup
stranger_killed = (refl, refl)

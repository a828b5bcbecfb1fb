-- ===== src/Tests/OfRequests.antt =====
-- Tests of the models of the requests of internal/server and of what blocks a program.
use supavisor.Prelude.{
  false, ◌≡◌, refl, true, Option, none, some, List, [], ◌∷◌, Str, str_eq, contains, lookup, insert,
  delete, keys, str_le, In, IsMap,
}
use supavisor.Process.{new_process}
use supavisor.Server.{
  note_blocked, unsatisfied, check_condition, dependencies_of, dependencies_satisfied,
}
use supavisor.Server.Names.{program_names, sort_names, insert_name, precedes}
use supavisor.Server.Reconcile.{
  start_action, run_action, reconcile_process, reconcile_one, reconcile_all, reconcile, undisturbed,
}
use supavisor.Server.{desired_running, desired_stopped, Server, exited_for_good, autorestart_policy}
use supavisor.Server.Blocking.{
  BlockReason, not_set_to_start, prospect_of, prospect, walk, blocked_by_dependency,
  blocked_indefinitely,
}
use supavisor.Server.Blocking.Answer.{IsTruthful, blocked_indefinitely_lem}
use supavisor.Process.{running, Process, set_state, call_cancel}
use supavisor.Process.Logging.{stop_logging}
use supavisor.Process.Probe.{stop_health_checks}
use supavisor.Process.Stop.{stop_begin, mark_stop}
use supavisor.Server.{set_desired, request_reconcile, wants_to_run}
use supavisor.Server.Reconcile.{stop_action}
use supavisor.Server.Requests.{
  start_request, stop_request, Poll, ticked, cannot_start, has_started, given_up, await_state,
}
use supavisor.Server.Requests.Effects.{undisturbed-Sees, start_request-starts, stop_request-stops}
use supavisor.Server.Requests.Waits.{Explains, await_state_lem}
use supavisor.Tests.Samples.{new_db, web_program, web, db, server}

-- What a pass computes with.
pass : Unit {0}
unfolding reconcile reconcile_all reconcile_one reconcile_process run_action note_blocked
    unsatisfied check_condition dependencies_of dependencies_satisfied program_names sort_names
    insert_name precedes keys lookup insert delete str_eq str_le new_process
pass = tt

server-IsMap : IsMap server.processes
unfolding pass
server-IsMap = (refl, (refl, tt))

-- The server with `db` set not to run.
abbrev db_unwanted : Server
db_unwanted = record server { desired = (web, desired_running) ∷ (db, desired_stopped) ∷ [] }

web_blocked : blocked_indefinitely db_unwanted web ≡ some (web ∷ [], some (not_set_to_start db))
unfolding blocked_indefinitely blocked_by_dependency walk prospect prospect_of exited_for_good
    autorestart_policy dependencies_of lookup contains str_eq new_process
web_blocked = refl

web_free : blocked_indefinitely server web ≡ some (db ∷ web ∷ [], none)
unfolding blocked_indefinitely blocked_by_dependency walk prospect prospect_of exited_for_good
    autorestart_policy dependencies_of lookup contains str_eq new_process
web_free = refl

blocked_indefinitely_lem_example :
    (seen : List Str) × ((answer : Option BlockReason) × (blocked_indefinitely db_unwanted web
        ≡ some (seen, answer))
      × IsTruthful db_unwanted web answer)
blocked_indefinitely_lem_example = blocked_indefinitely_lem db_unwanted web

requests : Unit {0}
unfolding pass start_request stop_request set_desired request_reconcile insert stop_begin mark_stop
    stop_health_checks stop_logging set_state call_cancel
requests = tt

abbrev asked : Server
asked = (start_request false db db_unwanted).0

start_request-starts_example : In (db, start_action) (reconcile (undisturbed asked) asked)
unfolding requests
start_request-starts_example =
    start_request-starts false db db_unwanted new_db (undisturbed asked) server-IsMap refl refl refl
      (undisturbed-Sees db asked) refl

-- The server with `db` running.
abbrev db_up : Process
db_up = record new_db { state = running; cmd = true; pid = 41 }

abbrev db_running : Server
db_running = record server { processes = (web, new_process web_program) ∷ (db, db_up) ∷ [] }

db_running-IsMap : IsMap db_running.processes
unfolding pass
db_running-IsMap = (refl, (refl, tt))

abbrev told : Server
told = (stop_request db db_running).0

stop_request-stops_example : In (db, stop_action) (reconcile (undisturbed told) told)
unfolding requests
stop_request-stops_example =
    stop_request-stops db db_running db_up (undisturbed told) db_running-IsMap refl (λ e. cc)
      (λ e. cc) refl (undisturbed-Sees db told)

-- A caller that asked for `web` while `db` is set not to run is told at the first poll.
abbrev one_poll : List Poll
one_poll = record { server = db_unwanted; process = new_process web_program; ended = ticked } ∷ []

await_state_lem_example :
    Explains has_started web one_poll (some (cannot_start web (not_set_to_start db)))
unfolding pass await_state given_up wants_to_run blocked_indefinitely blocked_by_dependency walk
    prospect prospect_of exited_for_good autorestart_policy contains
await_state_lem_example =
    await_state_lem has_started web one_poll (some (cannot_start web (not_set_to_start db))) refl

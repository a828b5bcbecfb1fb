-- ===== src/Tests/OfIpc.antt =====
-- Tests of the status and of the requests over the socket (internal/server/server.go, ipc.go).
use supavisor.Prelude.{
  insert, delete, str_eq, str_le, ◌≡◌, refl, true, false, none, some, [], ◌∷◌, Str, text, lookup,
  IsMap,
}
use supavisor.Tests.Samples.{web, db, server, new_db, web_program}
use supavisor.Server.Ipc.{
  handle_request, handle_status, handle_start, handle_stop, handle_restart, process_statuses,
  Environment, Request, confirmed, failure, process_restarted, process_not_found,
  process_name_required,
}
use supavisor.Server.Daemon.{reload, nothing_changed}
use supavisor.Server.Status.{get_status, statuses, sort_statuses, insert_status, select_process}
use supavisor.Server.{
  not_running_reason, exited_reason, autorestart_policy, set_desired, request_reconcile, Server,
}
use supavisor.Server.Restart.{restart_process, start_process, stop_process, Wait, IsRestarted}
use supavisor.Server.Requests.{start_request, stop_request, await_state, given_up, ticked}
use supavisor.Process.Stop.{stop_begin, mark_stop}
use supavisor.Process.Probe.{stop_health_checks}
use supavisor.Process.Logging.{stop_logging}
use supavisor.Process.{set_state, call_cancel, new_process, Process, running}
use supavisor.Server.Ipc.Answers.{names_program, handle_request-missing, handle_request-IsRestarted}
use supavisor.Server.Connections.{
  max_connections, over, stop_chan_closed, loop_ended, stopped as all_stopped, Connections,
  no_connections, take_slot, add_connection, give_slot, connection_done, accepts, takes, adds,
  returns, gives, finishes, asks, sees_end, sees_all, Reach, here, step,
}
use supavisor.Server.Connections.Bounded.{Reach-max_connections}
use supavisor.Prelude.{◌≤◌, arith}
use supavisor.Config.Result.{err, unreadable_file}

-- What requests compute with.
answers : Unit {0}
unfolding handle_request handle_status handle_start handle_stop handle_restart process_statuses
    reload get_status statuses sort_statuses insert_status select_process not_running_reason
    exited_reason autorestart_policy restart_process start_process stop_process start_request
    stop_request set_desired request_reconcile await_state given_up stop_begin mark_stop
    stop_health_checks stop_logging set_state call_cancel nothing_changed lookup insert delete
    str_eq str_le new_process
answers = tt

abbrev db_up : Process
db_up = record new_db { state = running; cmd = true; pid = 41; start_time = 1000 }

-- The program listed second is running.
abbrev db_running : Server
db_running = record server { processes = (web, new_process web_program) ∷ (db, db_up) ∷ [] }

db_running-IsMap : IsMap db_running.processes
unfolding answers
db_running-IsMap = (refl, (refl, tt))

-- A round that finds the process, and then ends.
abbrev finds : Process → Wait
finds p = record {
  polls = record { server = server; process = p; ended = ticked } ∷ [];
  later = server;
}

abbrev env : Environment
env = record {
  now = 1500;
  alive = false;
  stop_wait = finds new_db;
  start_wait = finds db_up;
  reload = reload (λ p q. false) (λ dir. true) (err (unreadable_file (text "s.yml"))) server;
}

abbrev restart : Request
restart = record { command = text "restart"; args = db ∷ [] }

restarted :
    handle_request env restart db_running ≡ (server, some (confirmed (process_restarted db)))
unfolding answers
restarted = refl

handle_request-IsRestarted_example : IsRestarted db (finds new_db) (finds db_up) db_running server
handle_request-IsRestarted_example =
    handle_request-IsRestarted env db [] db_running server (confirmed (process_restarted db))
      restarted refl

abbrev cache : Str
cache = text "cache"

stop_known : names_program (text "stop") ≡ true
unfolding answers
stop_known = refl

cache_missing : lookup cache db_running.processes ≡ none
unfolding answers
cache_missing = refl

handle_request-missing_example :
    handle_request env (record { command = text "stop"; args = cache ∷ [] }) db_running
    ≡ (db_running, some (failure (process_not_found cache)))
handle_request-missing_example =
    handle_request-missing env (record { command = text "stop"; args = cache ∷ [] }) cache []
      db_running db_running-IsMap stop_known refl cache_missing

no_name :
    handle_request env (record { command = text "stop"; args = [] }) db_running
    ≡ (db_running, some (failure process_name_required))
unfolding answers
no_name = refl

-- What the steps of the connections compute with.
clients : Unit {0}
unfolding take_slot add_connection give_slot connection_done
clients = tt

abbrev served : Connections
served = record no_connections { connections = 1; handling = 1; slots = 1 }

abbrev finished : Connections
finished = record no_connections { loop = over; stop = all_stopped }

served-Reach : Reach no_connections served
unfolding clients
served-Reach = step (step (step here (accepts refl)) (takes refl (omega arith))) (adds refl)

asked-Reach : Reach no_connections (record no_connections { stop = stop_chan_closed })
unfolding clients
asked-Reach =
    step (step (step served-Reach (gives (omega arith))) (finishes (omega arith))) (asks refl)

finished-Reach : Reach no_connections finished
unfolding clients
finished-Reach =
    step (step (step asked-Reach (returns refl (λ e. cc))) (sees_end refl refl))
      (sees_all refl refl)

Reach-max_connections_example :
    (finished.handling ≤ max_connections)
    × (finished.stop ≡ loop_ended → finished.loop ≡ over)
    × (finished.stop ≡ all_stopped → (finished.loop ≡ over) × (finished.handling ≡ 0))
Reach-max_connections_example = Reach-max_connections finished finished-Reach

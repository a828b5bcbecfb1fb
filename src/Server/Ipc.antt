-- ===== src/Server/Ipc.antt =====
-- The requests that come over the socket: `handleRequest` of internal/server/ipc.go and what it
-- calls, and the messages of internal/api/messages.go. Messages are data; their texts are not
-- modelled. The signal that a shutdown sends is not modelled.
pub mod Answers
use supavisor.Prelude.{
  ℕ, Bool, true, false, Option, none, some, List, [], ◌∷◌, if◌then◌else◌, Str, text, str_eq,
}
use supavisor.Prelude.Int.{ℤ}
use supavisor.Process.{
  State, stopped, starting, running, backoff, stopping, exited, fatal, unknown, Health, health_none,
  health_starting, health_healthy, health_unhealthy,
}
use supavisor.Server.{Server, DesiredState, desired_running, desired_stopped, StatusReason}
use supavisor.Server.Requests.{RequestError, unknown_process}
use supavisor.Server.Reload.{Diff}
use supavisor.Server.Restart.{Wait, Answered, stop_process, start_process, restart_process}
use supavisor.Server.Daemon.{DaemonError, Outcome, done, refused, stuck, nothing_changed}
use supavisor.Server.Status.{ProcessStatusInfo, get_status, select_process}

pub record Request : Type 0 where
  pub command : Str
  pub args : List Str

pub record ProcessStatus : Type 0 where
  pub name : Str
  pub state : Str
  pub desired : Str
  pub health : Str
  pub uptime : Option ℕ
  pub reason : StatusReason
  pub pid : ℕ
  pub exit_code : ℤ
  pub restart_count : ℕ

pub data Message : Type 0 where
  no_message process_name_required : Message
  unknown_command : (command : Str) → Message
  process_not_found : (name : Str) → Message
  request_failed : RequestError → Message
  reload_failed : DaemonError → Message
  process_started process_stopped process_restarted : (name : Str) → Message
  reloaded_unchanged configuration_reloaded shutdown_initiated : Message

pub data Payload : Type 0 where
  no_data : Payload
  processes_data : List ProcessStatus → Payload
  reload_data : Diff → Payload

pub record Response : Type 0 where
  pub data_sent : Payload
  pub message : Message
  pub success : Bool

abbrev pub failure : Message → Response
failure m = record { data_sent = no_data; message = m; success = false }

abbrev pub confirmed : Message → Response
confirmed m = record { data_sent = no_data; message = m; success = true }

-- The texts of the states, as the messages carry them.
abbrev state_text : State → Str
state_text stopped = text "STOPPED"
state_text starting = text "STARTING"
state_text running = text "RUNNING"
state_text backoff = text "BACKOFF"
state_text stopping = text "STOPPING"
state_text exited = text "EXITED"
state_text fatal = text "FATAL"
state_text unknown = text "UNKNOWN"

abbrev desired_text : Option DesiredState → Str
desired_text none = []
desired_text (some desired_running) = text "RUNNING"
desired_text (some desired_stopped) = text "STOPPED"

abbrev health_text : Health → Str
health_text health_none = text "NONE"
health_text health_starting = text "STARTING"
health_text health_healthy = text "HEALTHY"
health_text health_unhealthy = text "UNHEALTHY"

abbrev to_process_status : ProcessStatusInfo → ProcessStatus
to_process_status status = record {
  name = status.name;
  state = state_text status.state;
  desired = desired_text status.desired;
  health = health_text status.health;
  uptime = status.uptime;
  reason = status.reason;
  pid = status.pid;
  exit_code = status.exit_code;
  restart_count = status.restart_count;
}

unfoldable pub process_statuses : List ProcessStatusInfo → List ProcessStatus
process_statuses [] = []
process_statuses (status ∷ later) = to_process_status status ∷ process_statuses later

abbrev pub listed : List ProcessStatusInfo → Response
listed found = record {
  data_sent = processes_data (process_statuses found);
  message = no_message;
  success = true;
}

abbrev pub listed_or_missing : Str → List ProcessStatusInfo → Response
listed_or_missing name [] = failure (process_not_found name)
listed_or_missing name (status ∷ later) = listed (status ∷ later)

unfoldable pub handle_status : List ProcessStatusInfo → List Str → Response
handle_status found [] = listed found
handle_status found (name ∷ args) = listed_or_missing name (select_process found name)

-- The text of an error of a request.
abbrev error_message : RequestError → Message
error_message (unknown_process name) = process_not_found name
error_message e = request_failed e

-- `none` is that there is no answer yet.
abbrev pub reply : Message → Answered → Server × Option Response
reply success (s, none) = (s, none)
reply success (s, some none) = (s, some (confirmed success))
reply success (s, some (some e)) = (s, some (failure (error_message e)))

abbrev reload_reply : Server × Outcome Diff → Server × Option Response
reload_reply (s, stuck) = (s, none)
reload_reply (s, refused e) = (s, some (failure (reload_failed e)))
reload_reply (s, done diff) = (
  s,
  some (
      if nothing_changed diff then confirmed reloaded_unchanged else record {
        data_sent = reload_data diff;
        message = configuration_reloaded;
        success = true;
      }),
)

-- What the world does as a request is handled: the clock, the probe of the process group, the two
-- waits, and the reload as a whole.
pub record Environment : Type 0 where
  pub now : ℕ
  pub alive : Bool
  pub stop_wait : Wait
  pub start_wait : Wait
  pub reload : Server → Server × Outcome Diff

module _ (env : Environment) where
  unfoldable pub handle_start : Str → Server → Server × Option Response
  handle_start name s = reply (process_started name) (start_process env.alive name env.start_wait s)

  unfoldable pub handle_stop : Str → Server → Server × Option Response
  handle_stop name s = reply (process_stopped name) (stop_process name env.stop_wait s)

  unfoldable pub handle_restart : Str → Server → Server × Option Response
  handle_restart name s =
      reply (process_restarted name) (restart_process env.alive name env.stop_wait env.start_wait s)

  -- The guard that the three share.
  abbrev with_name :
      (Str → Server → Server × Option Response) → List Str → Server → Server × Option Response
  with_name handle [] s = (s, some (failure process_name_required))
  with_name handle (name ∷ args) s = handle name s

  unfoldable pub handle_request : Request → Server → Server × Option Response
  handle_request req s =
      let out : Server × Option Response =
        if str_eq req.command (text "status")
        then (s, some (handle_status (get_status env.now s) req.args))
        else if str_eq req.command (text "start")
        then with_name handle_start req.args s
        else if str_eq req.command (text "stop")
        then with_name handle_stop req.args s
        else if str_eq req.command (text "restart")
        then with_name handle_restart req.args s
        else if str_eq req.command (text "reload")
        then reload_reply (env.reload s)
        else if str_eq req.command (text "shutdown")
        then (s, some (confirmed shutdown_initiated))
        else (s, some (failure (unknown_command req.command))) in
      out

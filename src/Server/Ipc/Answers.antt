-- ===== src/Server/Ipc/Answers.antt =====
-- What the answers to requests over the socket mean (internal/server/ipc.go, `handleRequest`).
use supavisor.Prelude.{
  subst, ◌≡◌, refl, ap, ◌||◌, Bool, true, false, Option, none, some, List, ◌∷◌, Str, text, str_eq,
  lookup, IsMap, arith,
}
use supavisor.Server.{
  DesiredState, process_not_found as no_process, desired_stopped, set_desired, Server,
}
use supavisor.Server.Restart.{
  settled, then_start, start_process, stop_process, Answered, restart_process, IsRestarted,
  restart_process_lem,
}
use supavisor.Server.Ipc.{
  process_started, process_stopped, handle_status, listed_or_missing, handle_start, handle_stop,
  Environment, Request, Response, failure, process_not_found, process_restarted, reply,
  handle_restart, handle_request,
}
use supavisor.Server.Status.{get_status}
use supavisor.Server.Status.{select_process}
use supavisor.Server.Status.Listed.{get_status_lem, IsListed}
use supavisor.Server.Requests.{
  unknown_process, has_started, has_stopped, accept, start_request, stop_request,
}

abbrev success_of : Server × Option Response → Bool
success_of (s, none) = false
success_of (s, some r) = r.success

reply-success :
    (env : Environment) (name : Str) (x : Answered) (s t : Server) (r : Response)
    → reply (process_restarted name) x ≡ (t, some r)
    → r.success ≡ true
    → x ≡ (t, some none)
reply-success env name (u, none) s t r h e = cc
reply-success env name (u, some none) s t r h e =
    ap (λ (y : Server × Option Response). (y.0, some none)) h
reply-success env name (u, some (some x)) s t r h e = cc (ap success_of h, e)

-- A success in answer to a restart request means that the program it names was managed, that the
-- first wait found it stopped and it was still managed then, and that the second wait found it
-- running, or exited with its work done.
pub handle_request-IsRestarted :
    (env : Environment) (name : Str) (args : List Str) (s t : Server) (r : Response)
    → handle_request env (record { command = text "restart"; args = name ∷ args }) s ≡ (t, some r)
    → r.success ≡ true
    → IsRestarted name env.stop_wait env.start_wait s t
unfolding handle_request handle_restart str_eq
handle_request-IsRestarted env name args s t r h e =
    restart_process_lem env.alive name env.stop_wait env.start_wait s t (
      reply-success env name (restart_process env.alive name env.stop_wait env.start_wait s) s t r h
        e)

-- The commands that can name a program.
abbrev pub names_program : Str → Bool
names_program command =
    str_eq command (text "status")
    || (str_eq command (text "start")
        || (str_eq command (text "stop") || str_eq command (text "restart")))

missing-status :
    (env : Environment) (name : Str) (args : List Str) (s : Server)
    → IsMap s.processes
    → lookup name s.processes ≡ none
    → handle_status (get_status env.now s) (name ∷ args) ≡ failure (process_not_found name)
unfolding handle_status
missing-status env name args s unique h = ap (listed_or_missing name) (
    subst (λ o. IsListed env.now s name o (select_process (get_status env.now s) name)) h
      ((get_status_lem env.now s unique).1 name))

missing-start_request :
    (alive : Bool) (name : Str) (s : Server)
    → lookup name s.processes ≡ none
    → start_request alive name s ≡ (s, some (unknown_process name))
unfolding start_request
missing-start_request alive name s h = rw (start_request, h) refl

missing-start :
    (env : Environment) (name : Str) (s : Server)
    → lookup name s.processes ≡ none
    → handle_start env name s ≡ (s, some (failure (process_not_found name)))
unfolding handle_start start_process
missing-start env name s h =
    ap (λ x. reply (process_started name) (settled has_started name env.start_wait x))
      (missing-start_request env.alive name s h)

missing-set_desired :
    (name : Str) (d : DesiredState) (s : Server)
    → lookup name s.processes ≡ none
    → set_desired name d s ≡ (s, some (no_process name))
unfolding set_desired
missing-set_desired name d s h = rw (set_desired, h) refl

missing-stop :
    (env : Environment) (name : Str) (s : Server)
    → lookup name s.processes ≡ none
    → stop_process name env.stop_wait s ≡ (s, some (some (unknown_process name)))
unfolding stop_process stop_request
missing-stop env name s h =
    ap (λ x. settled has_stopped name env.stop_wait (accept x))
      (missing-set_desired name desired_stopped s h)

missing-restart :
    (env : Environment) (name : Str) (s : Server)
    → lookup name s.processes ≡ none
    → handle_restart env name s ≡ (s, some (failure (process_not_found name)))
unfolding handle_restart restart_process
missing-restart env name s h =
    ap (λ x. reply (process_restarted name) (then_start env.alive name env.start_wait x))
      (missing-stop env name s h)

-- For a server that has each program once: a status, start, stop or restart request for a program
-- that is not managed is answered at once, by the failure that it was not found, and leaves the
-- server as it is.
pub handle_request-missing :
    (env : Environment) (req : Request) (name : Str) (args : List Str) (s : Server)
    → IsMap s.processes
    → names_program req.command ≡ true
    → req.args ≡ name ∷ args
    → lookup name s.processes ≡ none
    → handle_request env req s ≡ (s, some (failure (process_not_found name)))
unfolding handle_request handle_stop
handle_request-missing env req name args s unique known named h = rw named (
    ground (
      arith,
      known,
      missing-status env name args s unique h,
      missing-start env name s h,
      ap (reply (process_stopped name)) (missing-stop env name s h),
      missing-restart env name s h,
    ))

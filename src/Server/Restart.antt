-- ===== src/Server/Restart.antt =====
-- The requests of internal/server/server.go with their waits: `StopProcess`, `StartProcess` and
-- `RestartProcess`.
use supavisor.Prelude.{
  ◌≡◌, refl, sym, ap, ◌∙◌, Bool, true, Option, none, some, List, Any, Str, lookup, has, arith,
}
use supavisor.Process.{Process}
use supavisor.Server.{Server, set_desired}
use supavisor.Server.Requests.{
  RequestError, stop_request, start_request, has_started, has_stopped, Poll, await_state,
}
use supavisor.Server.Requests.Waits.{await_state_lem}

-- What a wait finds, and the server as it ends.
pub record Wait : Type 0 where
  pub polls : List Poll
  pub later : Server

-- `none` is that the request still waits, `some none` that it is done.
abbrev pub Answered : Type 0
Answered = Server × Option (Option RequestError)

abbrev pub settled : (Process → Bool) → Str → Wait → Server × Option RequestError → Answered
settled done name wait (s, some e) = (s, some (some e))
settled done name wait (s, none) = (wait.later, await_state done name wait.polls)

unfoldable pub stop_process : Str → Wait → Server → Answered
stop_process name wait s = settled has_stopped name wait (stop_request name s)

unfoldable pub start_process : Bool → Str → Wait → Server → Answered
start_process alive name wait s = settled has_started name wait (start_request alive name s)

abbrev pub then_start : Bool → Str → Wait → Answered → Answered
then_start alive name wait (s, none) = (s, none)
then_start alive name wait (s, some (some e)) = (s, some (some e))
then_start alive name wait (s, some none) = start_process alive name wait s

unfoldable pub restart_process : Bool → Str → Wait → Wait → Server → Answered
restart_process alive name stop_wait start_wait s =
    then_start alive name start_wait (stop_process name stop_wait s)

settled-done :
    (done : Process → Bool) (name : Str) (wait : Wait) (x : Server × Option RequestError)
    (t : Server)
    → settled done name wait x ≡ (t, some none)
    → (x.1 ≡ none) × (t ≡ wait.later) × Any (λ poll. done poll.process ≡ true) wait.polls
settled-done done name wait (s, some e) t h = cc
settled-done done name wait (s, none) t h = (
  refl,
  sym (ap (λ (y : Answered). y.0) h),
  await_state_lem done name wait.polls none (ap (λ (y : Answered). y.1) h),
)

stop_request-managed :
    (name : Str) (s : Server)
    → (stop_request name s).1 ≡ none
    → has (lookup name s.processes) ≡ true
unfolding stop_request set_desired
stop_request-managed name s h = ground arith

start_request-managed :
    (alive : Bool) (name : Str) (s : Server)
    → (start_request alive name s).1 ≡ none
    → has (lookup name s.processes) ≡ true
unfolding start_request
start_request-managed alive name s h = ground arith

-- What a restart that reports success has seen.
pub record IsRestarted (name : Str) (stop_wait start_wait : Wait) (s t : Server) : Type 0 where
  pub managed : has (lookup name s.processes) ≡ true
  pub stopped : Any (λ poll. has_stopped poll.process ≡ true) stop_wait.polls
  pub kept : has (lookup name stop_wait.later.processes) ≡ true
  pub started : Any (λ poll. has_started poll.process ≡ true) start_wait.polls
  pub ended : t ≡ start_wait.later

-- A restart that reports success was of a managed program, which its first wait found stopped, which
-- was still managed then, and which its second wait found running, or exited with its work done.
pub restart_process_lem :
    (alive : Bool) (name : Str) (stop_wait start_wait : Wait) (s t : Server)
    → restart_process alive name stop_wait start_wait s ≡ (t, some none)
    → IsRestarted name stop_wait start_wait s t
unfolding restart_process stop_process start_process
restart_process_lem alive name stop_wait start_wait s t h =
    by_stop (stop_process name stop_wait s) refl h
  where
    by_stop :
        (x : Answered)
        → stop_process name stop_wait s ≡ x
        → then_start alive name start_wait x ≡ (t, some none)
        → IsRestarted name stop_wait start_wait s t
    by_stop (u, none) e h = cc
    by_stop (u, some (some r)) e h = cc
    by_stop (u, some none) e h =
        let (accepted, same, seen) =
          settled-done has_stopped name stop_wait (stop_request name s) u e in
        let (accepted', same', seen') =
          settled-done has_started name start_wait (start_request alive name u) t h in
        record {
          managed = stop_request-managed name s accepted;
          stopped = seen;
          kept =
              sym (ap (λ (v : Server). has (lookup name v.processes)) same)
              ∙ start_request-managed alive name u accepted';
          started = seen';
          ended = same';
        }

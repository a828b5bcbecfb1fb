-- ===== src/Server/Requests/Effects.antt =====
-- What a request makes the next pass do (internal/server/server.go, reconcile.go).
use supavisor.Prelude.{
  ◌≡◌, refl, ◌≢◌, ◌∙◌, sym, ap, inl, Bool, true, false, Option, none, some, In, Str, str_eq_refl,
  lookup, lookup-insert, IsMap, insert-IsMap, arith,
}
use supavisor.Process.{Process, stopped, stopping, is_stopped}
use supavisor.Process.Stop.{stop_begin}
use supavisor.Process.Stop.Outcomes.{stop_begin_lem}
use supavisor.Server.{
  Server, DesiredState, desired_running, desired_stopped, set_desired, request_reconcile,
  dependencies_of, dependencies_satisfied, depends_on_of,
}
use supavisor.Server.Reconcile.{Visit, start_action, stop_action, is_busy, reconcile, undisturbed}
use supavisor.Server.Reconcile.Decisions.{reconcile_lem}
use supavisor.Server.Reconcile.Visits.{unsatisfied-AreMet}
use supavisor.Server.Requests.{stop_request, start_request}

-- A visit finds the program as the server `t` has it.
pub record Sees (name : Str) (t : Server) (v : Visit) : Type 0 where
  pub process : lookup name v.found.processes ≡ lookup name t.processes
  pub desired : lookup name v.found.desired ≡ lookup name t.desired
  pub inflight : lookup name v.found.inflight ≡ lookup name t.inflight
  pub state : (p : Process) → lookup name t.processes ≡ some p → v.state ≡ p.state

pub undisturbed-Sees : (name : Str) (t : Server) → Sees name t (undisturbed t name)
undisturbed-Sees name t = record {
  process = refl;
  desired = refl;
  inflight = refl;
  state = λ p e. rw e refl;
}

-- What a request leaves behind for a program it accepts.
record IsAccepted (name : Str) (desired : DesiredState) (p : Process) (s t : Server) : Type 0 where
  unique : IsMap t.processes
  found : lookup name t.processes ≡ some p
  wanted : lookup name t.desired ≡ some desired
  inflight : t.inflight ≡ s.inflight

start_request-IsAccepted :
    (alive : Bool) (name : Str) (s : Server) (p : Process)
    → IsMap s.processes
    → lookup name s.processes ≡ some p
    → is_stopped p.state ≡ true
    → IsAccepted name desired_running (stop_begin alive p).0 s (start_request alive name s).0
unfolding start_request set_desired request_reconcile
start_request-IsAccepted alive name s p unique found idle = ground (
  arith,
  lookup-insert name name (stop_begin alive p).0 s.processes,
  insert-IsMap name (stop_begin alive p).0 s.processes,
  lookup-insert name name desired_running s.desired,
  str_eq_refl name,
)

stop_request-IsAccepted :
    (name : Str) (s : Server) (p : Process)
    → IsMap s.processes
    → lookup name s.processes ≡ some p
    → IsAccepted name desired_stopped p s (stop_request name s).0
unfolding stop_request set_desired request_reconcile
stop_request-IsAccepted name s p unique found =
    ground (arith, lookup-insert name name desired_stopped s.desired, str_eq_refl name)

idle-ne : (o : Option Bool) → is_busy o ≡ false → o ≢ some true
idle-ne o h = ground arith

found-ne : {V : Type 0} (o : Option V) (v : V) → o ≡ some v → o ≢ none
found-ne o v h = ground arith

released-stopped :
    (alive : Bool) (p : Process)
    → is_stopped p.state ≡ true
    → (stop_begin alive p).0.state ≡ stopped
released-stopped alive p h = ((stop_begin_lem alive p).1 (inl h)).0

-- For a server that has each program once: after a start request for a managed program that is
-- STOPPED, EXITED or FATAL, with no action on it in flight, the next pass launches a start for it, if
-- its visit still finds it as the request left it, and each of its dependencies meets its condition
-- then.
pub start_request-starts :
    (alive : Bool) (name : Str) (s : Server) (p : Process) (visits : Str → Visit)
    → IsMap s.processes
    → lookup name s.processes ≡ some p
    → is_stopped p.state ≡ true
    → is_busy (lookup name s.inflight) ≡ false
    → Sees name (start_request alive name s).0 (visits name)
    → dependencies_satisfied (visits name).checked name ≡ none
    → In (name, start_action) (reconcile visits (start_request alive name s).0)
unfolding dependencies_satisfied dependencies_of
start_request-starts alive name s p visits unique found idle free sees ready =
    let t = (start_request alive name s).0 in
    let q = (stop_begin alive p).0 in
    let a = start_request-IsAccepted alive name s p unique found idle in
    ((reconcile_lem visits t a.unique).0 name start_action).1 (
      found-ne (lookup name t.processes) q a.found,
      (
        idle-ne (lookup name (visits name).found.inflight)
            (ap is_busy (sees.inflight ∙ ap (lookup name) a.inflight) ∙ free),
        found-ne (lookup name (visits name).found.processes) q (sees.process ∙ a.found),
        sees.desired ∙ a.wanted,
        sees.state q a.found ∙ released-stopped alive p idle,
        unsatisfied-AreMet (visits name).checked
            (depends_on_of (lookup name (visits name).checked.config.programs)) ready,
      ),
    )

-- For a server that has each program once: a stop request for a managed program that is neither
-- STOPPED nor STOPPING, with no action on it in flight, makes the next pass launch a stop for it,
-- whatever its dependencies, if its visit still finds it as the request left it.
pub stop_request-stops :
    (name : Str) (s : Server) (p : Process) (visits : Str → Visit)
    → IsMap s.processes
    → lookup name s.processes ≡ some p
    → p.state ≢ stopped
    → p.state ≢ stopping
    → is_busy (lookup name s.inflight) ≡ false
    → Sees name (stop_request name s).0 (visits name)
    → In (name, stop_action) (reconcile visits (stop_request name s).0)
stop_request-stops name s p visits unique found h k free sees =
    let t = (stop_request name s).0 in
    let a = stop_request-IsAccepted name s p unique found in
    let state = sees.state p a.found in
    ((reconcile_lem visits t a.unique).0 name stop_action).1 (
      found-ne (lookup name t.processes) p a.found,
      (
        idle-ne (lookup name (visits name).found.inflight)
            (ap is_busy (sees.inflight ∙ ap (lookup name) a.inflight) ∙ free),
        found-ne (lookup name (visits name).found.processes) p (sees.process ∙ a.found),
        sees.desired ∙ a.wanted,
        λ e. h (sym state ∙ e),
        λ e. k (sym state ∙ e),
      ),
    )

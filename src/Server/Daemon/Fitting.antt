-- ===== src/Server/Daemon/Fitting.antt =====
-- The maps of the server and its configuration (internal/server/server.go): one entry of each for
-- each program.
use supavisor.Prelude.{
  insert, ◌⊎◌, inl, inr, Bool-cases, ◌≡◌, refl, sym, ap, subst, ◌∙◌, Bool, true, false, Option,
  none, some, List, [], ◌∷◌, if◌then◌else◌, Str, str_eq, str_eq_iff, lookup, lookup-insert,
  insert-IsMap, IsMap, has, arith,
}
use supavisor.Config.{Config, ProgramConfig}
use supavisor.Config.Result.{ok}
use supavisor.Config.Validate.{validate}
use supavisor.Process.{Process, state_eq, running, is_stopped}
use supavisor.Process.Stop.{stop_begin, mark_stop}
use supavisor.Process.Stop.Outcomes.{marked}
use supavisor.Process.Monitor.Settling.{clear_health-config}
use supavisor.Graph.{in_order, topological_sort}
use supavisor.Server.{
  ServerError, process_not_found, Server, DesiredState, desired_running, desired_stopped,
  set_desired, request_reconcile,
}
use supavisor.Server.Reconcile.{Visit, reconcile_one, action_done}
use supavisor.Server.Reconcile.Visits.{reconcile_one-Frame}
use supavisor.Server.Requests.{
  RequestError, start_request, stop_request, release, accept, unknown_process, already_running,
}
use supavisor.Server.Reload.{stop_for_reload}
use supavisor.Server.Shutdown.{build_dependency_graph}

abbrev pub config_of : Option Process → Option ProgramConfig
config_of none = none
config_of (some p) = some p.config

-- `New` and `Reload` take no other configuration.
pub record IsAccepted (cfg : Config) : Type 0 where
  pub unique : IsMap cfg.programs
  pub valid : validate cfg ≡ some (ok tt)
  pub ordered :
      (names : List Str) × (topological_sort (build_dependency_graph cfg.programs) ≡ in_order names)

-- The processes are those of the configuration, each with its settings, and each program is wanted
-- or unwanted.
pub record Fits (s : Server) : Type 0 where
  pub accepted : IsAccepted s.config
  pub unique : IsMap s.processes
  pub managed : (a : Str) → config_of (lookup a s.processes) ≡ lookup a s.config.programs
  pub wanted : (a : Str) → has (lookup a s.desired) ≡ has (lookup a s.config.programs)

-- The operation keeps the configuration and the fit.
abbrev pub Keeps : Server → Server → Type 0
Keeps s s' = Fits s → Fits s' × (s'.config ≡ s.config)

pub has-config_of : (o : Option Process) → has (config_of o) ≡ has o
has-config_of none = refl
has-config_of (some p) = refl

pub request_reconcile-Keeps : (s : Server) → Keeps s (request_reconcile s)
unfolding request_reconcile
request_reconcile-Keeps s f = (
  record { accepted = f.accepted; unique = f.unique; managed = f.managed; wanted = f.wanted },
  refl,
)

set_desired-Keeps : (name : Str) (d : DesiredState) (s : Server) → Keeps s (set_desired name d s).0
unfolding set_desired
set_desired-Keeps name d s f = by_process (lookup name s.processes) refl
  where
    by_process :
        (o : Option Process)
        → lookup name s.processes ≡ o
        → Fits (set_desired name d s).0 × ((set_desired name d s).0.config ≡ s.config)
    by_process none e = rw (set_desired, e) (f, refl)
    by_process (some p) e =
        rw (set_desired, e)
          (
            record {
              accepted = f.accepted;
              unique = f.unique;
              managed = f.managed;
              wanted = λ a.
                  ap has (lookup-insert name a d s.desired)
                  ∙ ground (arith, str_eq_iff name a, f.wanted a, e, ap has (f.managed name));
            },
            refl,
          )

stop_begin-config : (alive : Bool) (p : Process) → (stop_begin alive p).0.config ≡ p.config
unfolding stop_begin mark_stop
stop_begin-config alive p = ground (arith, clear_health-config p.health_cancel (marked p))

-- A process with the same settings is put in the place of one.
pub replaced-Fits :
    (name : Str) (p q : Process) (s : Server)
    → lookup name s.processes ≡ some p
    → q.config ≡ p.config
    → Fits s
    → Fits (record s { processes = insert name q s.processes })
replaced-Fits name p q s e same f = record {
  accepted = f.accepted;
  unique = insert-IsMap name q s.processes f.unique;
  managed = λ a.
      ap config_of (lookup-insert name a q s.processes)
      ∙ (replaced_at a (Bool-cases (str_eq name a)) ∙ f.managed a);
  wanted = f.wanted;
}
  where
    replaced_at :
        (a : Str)
        → (str_eq name a ≡ true) ⊎ (str_eq name a ≡ false)
        → config_of (if str_eq name a then some q else lookup a s.processes)
          ≡ config_of (lookup a s.processes)
    replaced_at a (inl h) = rw h (
        ap some same
        ∙ (sym (ap config_of e)
            ∙ ap (λ b. config_of (lookup b s.processes)) ((str_eq_iff name a).0 h)))
    replaced_at a (inr h) = rw h refl

release-Keeps :
    (alive : Bool) (name : Str) (p : Process) (s : Server)
    → lookup name s.processes ≡ some p
    → Keeps s (release alive name p s)
release-Keeps alive name p s e f = by_state (is_stopped p.state)
  where
    by_state :
        (b : Bool)
        → let s' =
            if b
            then record s { processes = insert name (stop_begin alive p).0 s.processes }
            else s in
          Fits s' × (s'.config ≡ s.config)
    by_state true =
        (replaced-Fits name p (stop_begin alive p).0 s e (stop_begin-config alive p) f, refl)
    by_state false = (f, refl)

accept-Keeps :
    (s : Server) (out : Server × Option ServerError) → Keeps s out.0 → Keeps s (accept out).0
accept-Keeps s (s', none) k f =
    let (g, same) = k f in let (h, same') = request_reconcile-Keeps s' g in (h, same' ∙ same)
accept-Keeps s (s', some (process_not_found name)) k f = k f

pub stop_request-Keeps : (name : Str) (s : Server) → Keeps s (stop_request name s).0
unfolding stop_request
stop_request-Keeps name s =
    accept-Keeps s (set_desired name desired_stopped s) (set_desired-Keeps name desired_stopped s)

abbrev KeepsRequest : Server → Server × Option RequestError → Type 0
KeepsRequest s out = Fits out.0 × (out.0.config ≡ s.config)

pub start_request-Keeps :
    (alive : Bool) (name : Str) (s : Server) → Keeps s (start_request alive name s).0
unfolding start_request
start_request-Keeps alive name s f = by_process (lookup name s.processes) refl
  where
    by_running :
        (p : Process)
        → lookup name s.processes ≡ some p
        → (b : Bool)
        → KeepsRequest s (
            if b
            then (s, some (already_running name))
            else accept (set_desired name desired_running (release alive name p s)))
    by_running p e true = (f, refl)
    by_running p e false =
        let s1 = release alive name p s in
        let (g, same) = release-Keeps alive name p s e f in
        let (h, same') =
          accept-Keeps s1 (set_desired name desired_running s1)
            (set_desired-Keeps name desired_running s1) g in
        (h, same' ∙ same)

    by_process :
        (o : Option Process)
        → lookup name s.processes ≡ o
        → KeepsRequest s (elim o [
          | none ↦ (s, some (unknown_process name))
          | some p ↦
              if state_eq p.state running
              then (s, some (already_running name))
              else accept (set_desired name desired_running (release alive name p s))
        ])
    by_process none e = (f, refl)
    by_process (some p) e = by_running p e (state_eq p.state running)

pub stop_for_reload-Keeps : (names : List Str) (s : Server) → Keeps s (stop_for_reload names s)
unfolding stop_for_reload
stop_for_reload-Keeps [] s f = request_reconcile-Keeps s f
stop_for_reload-Keeps (name ∷ names) s f =
    let (g, same) = set_desired-Keeps name desired_stopped s f in
    let (h, same') = stop_for_reload-Keeps names (set_desired name desired_stopped s).0 g in
    (h, same' ∙ same)

pub action_done-Keeps : (name : Str) (s : Server) → Keeps s (action_done name s)
unfolding action_done
action_done-Keeps name s f = (
  record { accepted = f.accepted; unique = f.unique; managed = f.managed; wanted = f.wanted },
  refl,
)

pub reconcile_one-Keeps : (name : Str) (v : Visit) → Keeps v.acted (reconcile_one name v).0
reconcile_one-Keeps name v f =
    let g = reconcile_one-Frame name v in
    (
      record {
        accepted = subst IsAccepted (sym g.config) f.accepted;
        unique = subst IsMap (sym g.processes) f.unique;
        managed = λ a.
            ap (λ m. config_of (lookup a m)) g.processes
            ∙ (f.managed a ∙ ap (λ (c : Config). lookup a c.programs) (sym g.config));
        wanted = λ a.
            ap (λ m. has (lookup a m)) g.desired
            ∙ (f.wanted a ∙ ap (λ (c : Config). has (lookup a c.programs)) (sym g.config));
      },
      g.config,
    )

-- ===== src/Server/Reconcile/Visits.antt =====
-- What one visit of a pass launches (internal/server/reconcile.go, `reconcile`).
use supavisor.Prelude.{
  ◌≡◌, ◌≢◌, ◌↔◌, ◌⊎◌, inl, inr, refl, sym, ap, subst, true, Option, none, some, List, [], ◌∷◌, Str,
  str_eq_refl, lookup, lookup-insert, All, In, arith,
}
use supavisor.Config.{
  Dependency, DependencyCondition, condition_started, condition_healthy, condition_completed,
}
use supavisor.Process.{Process, running, health_healthy, stopped, stopping}
use supavisor.Server.{
  Server, desired_running, desired_stopped, note_blocked, depends_on_of, check_condition,
  check_process, first_reason, unsatisfied, dependencies_of, dependencies_satisfied,
}
use supavisor.Server.Reconcile.{
  ActionKind, start_action, stop_action, Visit, run_action, reconcile_process, reconcile_one,
}

-- What a dependency is waited on for.
abbrev pub Meets : DependencyCondition → Process → Type 0
Meets condition_started p = p.state ≡ running
Meets condition_healthy p = (p.state ≡ running) × (p.health ≡ health_healthy)
Meets condition_completed p = p.completed ≡ true

-- Each dependency is managed and meets its condition.
abbrev pub AreMet : Server → List Dependency → Type 0
AreMet s deps =
    All (λ dep. (q : Process) × (lookup dep.name s.processes ≡ some q) × Meets dep.condition q) deps

-- Why a program is started, and why it is stopped, by what its visit finds.
abbrev pub Owes : ActionKind → Str → Visit → Type 0
Owes start_action name v =
    (lookup name v.found.inflight ≢ some true)
    × (lookup name v.found.processes ≢ none)
    × (lookup name v.found.desired ≡ some desired_running)
    × (v.state ≡ stopped)
    × AreMet v.checked (depends_on_of (lookup name v.checked.config.programs))
Owes stop_action name v =
    (lookup name v.found.inflight ≢ some true)
    × (lookup name v.found.processes ≢ none)
    × (lookup name v.found.desired ≡ some desired_stopped)
    × (v.state ≢ stopped)
    × (v.state ≢ stopping)

check_condition-Meets :
    (dep : Str) (c : DependencyCondition) (p : Process)
    → (check_condition dep c p ≡ none) ↔ Meets c p
unfolding check_condition
check_condition-Meets dep condition_started p = (λ h. ground arith, λ h. ground arith)
check_condition-Meets dep condition_healthy p = (λ h. ground arith, λ h. ground arith)
check_condition-Meets dep condition_completed p = (λ h. ground arith, λ h. ground arith)

pub unsatisfied-AreMet :
    (s : Server) (deps : List Dependency) → unsatisfied s deps ≡ none → AreMet s deps
unfolding unsatisfied
unsatisfied-AreMet s [] h = tt
unsatisfied-AreMet s (dep ∷ deps) h =
    by_process (unsatisfied-AreMet s deps) (lookup dep.name s.processes) refl h
  where
    by_process :
        (unsatisfied s deps ≡ none → AreMet s deps)
        → (o : Option Process) → lookup dep.name s.processes ≡ o
        → first_reason (check_process dep o) (unsatisfied s deps) ≡ none
        → AreMet s (dep ∷ deps)
    by_process later none e h = cc
    by_process later (some q) e h = (
      (q, e, (check_condition-Meets dep.name dep.condition q).0 (ground (arith, h))),
      later (ground (arith, h)),
    )

AreMet-unsatisfied :
    (s : Server) (deps : List Dependency) → AreMet s deps → unsatisfied s deps ≡ none
unfolding unsatisfied
AreMet-unsatisfied s [] h = refl
AreMet-unsatisfied s (dep ∷ deps) ((q, found, meets), later) = ground (
  arith,
  found,
  (check_condition-Meets dep.name dep.condition q).1 meets,
  AreMet-unsatisfied s deps later,
)

-- A visit launches nothing or one action.
pub visit_shape :
    (name : Str) (v : Visit)
    → ((reconcile_one name v).1 ≡ [])
      ⊎ ((reconcile_one name v).1 ≡ (name, start_action) ∷ [])
      ⊎ ((reconcile_one name v).1 ≡ (name, stop_action) ∷ [])
unfolding reconcile_one reconcile_process run_action
visit_shape name v = ground arith

visit-start :
    (name : Str) (v : Visit)
    → (In (name, start_action) (reconcile_one name v).1) ↔ (
        (lookup name v.found.inflight ≢ some true)
        × (lookup name v.found.processes ≢ none)
        × (lookup name v.found.desired ≡ some desired_running)
        × (v.state ≡ stopped)
        × (dependencies_satisfied v.checked name ≡ none))
unfolding reconcile_one reconcile_process run_action
visit-start name v = (λ h. ground arith, λ h. ground arith)

visit-stop :
    (name : Str) (v : Visit)
    → (In (name, stop_action) (reconcile_one name v).1) ↔ Owes stop_action name v
unfolding reconcile_one reconcile_process run_action
visit-stop name v = (λ h. ground arith, λ h. ground arith)

pub visit-Owes :
    (kind : ActionKind) (name : Str) (v : Visit)
    → (In (name, kind) (reconcile_one name v).1) ↔ Owes kind name v
unfolding dependencies_satisfied dependencies_of
visit-Owes stop_action name v = visit-stop name v
visit-Owes start_action name v =
    let deps = depends_on_of (lookup name v.checked.config.programs) in
    (
      λ h.
          let (idle, managed, wanted, state, ready) = (visit-start name v).0 h in
          (idle, managed, wanted, state, unsatisfied-AreMet v.checked deps ready),
      λ (idle, managed, wanted, state, met).
          (visit-start name v).1
            (idle, managed, wanted, state, AreMet-unsatisfied v.checked deps met),
    )

-- What a visit does to the server that it acts on.
pub record Frame (name : Str) (s t : Server) : Type 0 where
  pub config : t.config ≡ s.config
  pub processes : t.processes ≡ s.processes
  pub desired : t.desired ≡ s.desired

pub reconcile_one-Frame : (name : Str) (v : Visit) → Frame name v.acted (reconcile_one name v).0
unfolding reconcile_one reconcile_process run_action note_blocked
reconcile_one-Frame name v = record {
  config = ground arith;
  processes = ground arith;
  desired = ground arith;
}

pub reconcile_one-marks :
    (kind : ActionKind) (name : Str) (v : Visit)
    → In (name, kind) (reconcile_one name v).1
    → lookup name (reconcile_one name v).0.inflight ≡ some true
unfolding reconcile_one reconcile_process run_action note_blocked
reconcile_one-marks kind name v h =
    ground (arith, h, lookup-insert name name true v.acted.inflight, str_eq_refl name)

-- A visit launches actions for its own program only.
pub visit-name :
    (n name : Str) (kind : ActionKind) (v : Visit)
    → In (name, kind) (reconcile_one n v).1
    → n ≡ name
visit-name n name kind v m = elim (visit_shape n v) [
  | inl e ↦ absurd (subst (In {A = Str × ActionKind} (name, kind)) e m)
  | inr (inl e) ↦ single start_action (subst (In {A = Str × ActionKind} (name, kind)) e m)
  | inr (inr e) ↦ single stop_action (subst (In {A = Str × ActionKind} (name, kind)) e m)
]
  where
    single : (k : ActionKind) → In {A = Str × ActionKind} (name, kind) ((n, k) ∷ []) → n ≡ name
    single k (inl e) = ap (λ x. x.0) (sym e)
    single k (inr h) = absurd h

-- ===== src/Server/Daemon/Checks.antt =====
-- The checks of `New` and `Reload` (internal/server/server.go, reload.go), and the callbacks.
use supavisor.Prelude.{
  ◌≡◌, refl, subst, Bool, true, false, Option, none, some, List, if◌then◌else◌, Str, IsMap,
}
use supavisor.Config.{Config}
use supavisor.Config.Result.{Result, ok, err}
use supavisor.Config.Directories.{ensure_log_directories}
use supavisor.Config.Validate.{validate}
use supavisor.Graph.{Ordered, in_order, circular, no_fuel, topological_sort}
use supavisor.Server.{Server, mark_state_dirty, request_reconcile}
use supavisor.Server.Shutdown.{build_dependency_graph}
use supavisor.Server.Daemon.{
  DaemonError, Outcome, done, refused, if_valid, if_ordered, if_made, if_unset, if_read, new_server,
  on_process_state_change, on_process_health_change,
}
use supavisor.Server.Daemon.Fitting.{Fits, Keeps, request_reconcile-Keeps}
use supavisor.Server.Daemon.Replaced.{populate-Fits}

-- A result behind a check is one behind a check that passed.
module _ {A : Type 0} (a : A) (next : Outcome A) where
  pub if_valid-done :
      (v : Option (Result (Unit {0})))
      → if_valid v next ≡ done a
      → (v ≡ some (ok tt)) × (next ≡ done a)
  if_valid-done none h = cc
  if_valid-done (some (err e)) h = cc
  if_valid-done (some (ok u)) h = (refl, h)

  pub if_ordered-done :
      (o : Ordered (List Str))
      → if_ordered o next ≡ done a
      → ((names : List Str) × (o ≡ in_order names)) × (next ≡ done a)
  if_ordered-done (in_order names) h = ((names, refl), h)
  if_ordered-done circular h = cc
  if_ordered-done no_fuel h = cc

  pub if_made-done : (o : Option Str) → if_made o next ≡ done a → next ≡ done a
  if_made-done none h = h
  if_made-done (some dir) h = cc

  pub if_unset-done : (o : Option Str) → if_unset o next ≡ done a → next ≡ done a
  if_unset-done none h = h
  if_unset-done (some setting) h = cc

pub on_process_state_change-Keeps : (s : Server) → Keeps s (on_process_state_change s)
unfolding on_process_state_change mark_state_dirty request_reconcile
on_process_state_change-Keeps s f = (
  record { accepted = f.accepted; unique = f.unique; managed = f.managed; wanted = f.wanted },
  refl,
)

pub on_process_health_change-Keeps : (s : Server) → Keeps s (on_process_health_change s)
unfolding on_process_health_change
on_process_health_change-Keeps s = request_reconcile-Keeps s

pub unless-done :
    {A : Type 0} (a : A) (b : Bool) (e : DaemonError) (next : Outcome A)
    → (if b then refused e else next) ≡ done a
    → next ≡ done a
unless-done a true e next h = cc
unless-done a false e next h = h

pub done-injective : {A : Type 0} {a b : A} → done a ≡ done b → a ≡ b
done-injective h = cc

pub if_read-done :
    {A : Type 0} (a : A) (r : Result Config) (next : Config → Outcome A)
    → if_read r next ≡ done a
    → (cfg : Config) × (r ≡ ok cfg) × (next cfg ≡ done a)
if_read-done a (ok cfg) next h = (cfg, refl, h)
if_read-done a (err e) next h = cc

pub new_server-Fits :
    (make : Str → Bool) (cfg : Config) (s : Server)
    → IsMap cfg.programs
    → new_server make cfg ≡ done s
    → Fits s
unfolding new_server
new_server-Fits make cfg s unique h =
    let (valid, h1) = if_valid-done s _ (validate cfg) h in
    let h2 = if_made-done s _ (ensure_log_directories make cfg) h1 in
    let (ordered, h3) =
      if_ordered-done s _ (topological_sort (build_dependency_graph cfg.programs)) h2 in
    subst Fits (done-injective h3)
      (populate-Fits cfg (record { unique = unique; valid = valid; ordered = ordered }))

-- ===== src/Server/Daemon/Worlds.antt =====
-- Everything that happens to the server of internal/server, in any order: passes, requests, reloads,
-- and what the processes do meanwhile.
use supavisor.Prelude.{
  ◌≡◌, refl, sym, ap, subst, ◌∙◌, Bool, true, false, Option, none, some, List, ◌++◌, if◌then◌else◌,
  Str, lookup, insert, has, is_empty,
}
use supavisor.Config.{Config, ProgramConfig}
use supavisor.Config.Result.{ok}
use supavisor.Config.Health.{Parsers}
use supavisor.Config.Program.{Setting}
use supavisor.Config.Directories.{ensure_log_directories}
use supavisor.Config.Validate.{validate}
use supavisor.Config.Files.{Disk, parse_config}
use supavisor.Config.Files.Merged.{parse_config_lem}
use supavisor.Process.{Process}
use supavisor.Graph.{topological_sort}
use supavisor.Server.{Server}
use supavisor.Server.Reconcile.{Visit, reconcile_one, action_done}
use supavisor.Server.Requests.{start_request, stop_request}
use supavisor.Server.Reload.{Diff, diff_programs, changed_daemon_setting, stop_for_reload}
use supavisor.Server.Shutdown.{build_dependency_graph}
use supavisor.Server.Daemon.{
  done, new_server, Reloading, Planned, nothing_changed, reload_begin, reload_end,
  on_process_state_change, on_process_health_change,
}
use supavisor.Server.Daemon.Fitting.{
  IsAccepted, Fits, Keeps, replaced-Fits, start_request-Keeps, stop_request-Keeps,
  stop_for_reload-Keeps, action_done-Keeps, reconcile_one-Keeps,
}
use supavisor.Server.Daemon.Replaced.{IsPlanned, reload_end-Fits}
use supavisor.Server.Daemon.Checks.{
  if_valid-done, if_ordered-done, if_made-done, if_unset-done, on_process_state_change-Keeps,
  on_process_health_change-Keeps, unless-done, done-injective, if_read-done, new_server-Fits,
}

-- The server, and what a reload keeps while it waits; there is one reload at a time.
pub record World : Type 0 where
  pub server : Server
  pub reloading : Option Reloading

module _ (go : Parsers) (visit : List Setting) (make : Str → Bool)
    (deep_equal : ProgramConfig → ProgramConfig → Bool) where
  -- A pass is its visits, one step each; what a visit has read before it acts may be out of date. A
  -- process that is managed moves without a change of its settings, whatever it does.
  pub data Step (w : World) : World → Type 0 where
    visits :
        (name : Str) (v : Visit)
        → v.acted ≡ w.server
        → Step w (record w { server = (reconcile_one name v).0 })
    asks_start :
        (alive : Bool) (name : Str)
        → Step w (record w { server = (start_request alive name w.server).0 })
    asks_stop : (name : Str) → Step w (record w { server = (stop_request name w.server).0 })
    finishes : (name : Str) → Step w (record w { server = action_done name w.server })
    moves :
        (name : Str) (p q : Process)
        → lookup name w.server.processes ≡ some p
        → q.config ≡ p.config
        → Step w
            (record w { server = record w.server { processes = insert name q w.server.processes } })
    reports_state : Step w (record w { server = on_process_state_change w.server })
    reports_health : Step w (record w { server = on_process_health_change w.server })
    reload_waits :
        (disk : Disk) (diff : Diff) (r : Reloading) (s : Server)
        → w.reloading ≡ none
        → reload_begin deep_equal make
            (parse_config go visit disk w.server.config.source_path)
            w.server
          ≡ done (diff, some (r, s))
        → Step w (record { server = s; reloading = some r })
    reload_applies :
        (r : Reloading)
        → w.reloading ≡ some r
        → Step w (record { server = reload_end r w.server; reloading = none })

  pub data Reach (w : World) : World → Type 0 where
    here : Reach w w
    step : {u v : World} → Reach w u → Step u v → Reach w v

  abbrev WaitsFor : Server → Option Reloading → Type 0
  WaitsFor s none = Unit
  WaitsFor s (some r) = IsPlanned deep_equal r s

  -- The server fits its configuration, and so does the plan of a reload that waits.
  record IsKept (w : World) : Type 0 where
    server : Fits w.server
    reloading : WaitsFor w.server w.reloading

  WaitsFor-same :
      (s t : Server) (o : Option Reloading) → t.config ≡ s.config → WaitsFor s o → WaitsFor t o
  WaitsFor-same s t none e h = tt
  WaitsFor-same s t (some r) e h = record {
    accepted = h.accepted;
    planned =
        h.planned
        ∙ ap (λ (c : Config). diff_programs deep_equal c.programs r.config.programs) (sym e);
    wanted = λ a. h.wanted a ∙ ap (λ (c : Config). has (lookup a c.programs)) (sym e);
  }

  IsKept-by :
      (w : World) (s : Server) → Keeps w.server s → IsKept w → IsKept (record w { server = s })
  IsKept-by w s k h =
      let (f, e) = k h.server in
      record { server = f; reloading = WaitsFor-same w.server s w.reloading e h.reloading }

  reload_begin-IsKept :
      (disk : Disk) (w : World) (diff : Diff) (r : Reloading) (s : Server)
      → reload_begin deep_equal make
          (parse_config go visit disk w.server.config.source_path)
          w.server
        ≡ done (diff, some (r, s))
      → Fits w.server
      → IsKept (record { server = s; reloading = some r })
  unfolding reload_begin
  reload_begin-IsKept disk w diff r s h f =
      let t = w.server in
      let h0 = unless-done (diff, some (r, s)) (is_empty t.config.source_path) _ _ h in
      let (cfg, e, h1) =
        if_read-done (diff, some (r, s)) (parse_config go visit disk t.config.source_path) _ h0 in
      let (valid, h2) = if_valid-done (diff, some (r, s)) _ (validate cfg) h1 in
      let (ordered, h3) =
        if_ordered-done (diff, some (r, s)) _
          (topological_sort (build_dependency_graph cfg.programs)) h2 in
      let h4 =
        if_unset-done (diff, some (r, s)) _
          (changed_daemon_setting t.config.supavisor cfg.supavisor) h3 in
      let h5 = if_made-done (diff, some (r, s)) _ (ensure_log_directories make cfg) h4 in
      let unique = (parse_config_lem go visit disk t.config.source_path cfg e).2 in
      begun cfg (record { unique = unique; valid = valid; ordered = ordered })
        (nothing_changed (diff_programs deep_equal t.config.programs cfg.programs))
        (done-injective h5)
    where
      some-injective : {A : Type 0} {x y : A} → some x ≡ some y → x ≡ y
      some-injective x = cc

      begun :
          (cfg : Config)
          → IsAccepted cfg
          → (b : Bool)
          → let d = diff_programs deep_equal w.server.config.programs cfg.programs in
            let out : Planned = if b then (d, none) else (
              d,
              some (
                record { config = cfg; diff = d; previous = w.server.desired },
                stop_for_reload (d.removed ++ d.changed) w.server,
              ),
            ) in
            out ≡ (diff, some (r, s)) → IsKept (record { server = s; reloading = some r })
      begun cfg accepted true x = cc
      begun cfg accepted false x =
          let d = diff_programs deep_equal w.server.config.programs cfg.programs in
          let names = d.removed ++ d.changed in
          let (fits, same) = stop_for_reload-Keeps names w.server f in
          let kept : IsPlanned deep_equal
              (record { config = cfg; diff = d; previous = w.server.desired })
              (stop_for_reload names w.server) =
            record {
              accepted = accepted;
              planned =
                  ap (λ (c : Config). diff_programs deep_equal c.programs cfg.programs) (sym same);
              wanted = λ a. f.wanted a ∙ ap (λ (c : Config). has (lookup a c.programs)) (sym same);
            } in
          subst (λ (y : Reloading × Server). IsKept (record { server = y.1; reloading = some y.0 }))
            (some-injective (ap (λ (y : Planned). y.1) x))
            (record { server = fits; reloading = kept })

  Step-IsKept :
      ((p q : ProgramConfig) → deep_equal p q ≡ true → p ≡ q)
      → {w v : World} → Step w v
      → IsKept w
      → IsKept v
  Step-IsKept equal {w} (visits name v e) h =
      IsKept-by w (reconcile_one name v).0
        (subst (λ s. Keeps s (reconcile_one name v).0) e (reconcile_one-Keeps name v)) h
  Step-IsKept equal {w} (asks_start alive name) h =
      IsKept-by w (start_request alive name w.server).0 (start_request-Keeps alive name w.server) h
  Step-IsKept equal {w} (asks_stop name) h =
      IsKept-by w (stop_request name w.server).0 (stop_request-Keeps name w.server) h
  Step-IsKept equal {w} (finishes name) h =
      IsKept-by w (action_done name w.server) (action_done-Keeps name w.server) h
  Step-IsKept equal {w} (moves name p q e same) h =
      IsKept-by w (record w.server { processes = insert name q w.server.processes })
        (λ f. (replaced-Fits name p q w.server e same f, refl)) h
  Step-IsKept equal {w} reports_state h =
      IsKept-by w (on_process_state_change w.server) (on_process_state_change-Keeps w.server) h
  Step-IsKept equal {w} reports_health h =
      IsKept-by w (on_process_health_change w.server) (on_process_health_change-Keeps w.server) h
  Step-IsKept equal {w} (reload_waits disk diff r s e b) h =
      reload_begin-IsKept disk w diff r s b h.server
  Step-IsKept equal {w} (reload_applies r e) h = record {
    server =
        (reload_end-Fits deep_equal equal r w.server (subst (WaitsFor w.server) e h.reloading)
          h.server).0;
    reloading = tt;
  }

  Reach-IsKept :
      ((p q : ProgramConfig) → deep_equal p q ≡ true → p ≡ q)
      → {w v : World} → IsKept w
      → Reach w v
      → IsKept v
  Reach-IsKept equal h here = h
  Reach-IsKept equal h (step r s) = Step-IsKept equal s (Reach-IsKept equal h r)

  -- From the server that `New` makes of a configuration that was read, whatever requests, passes,
  -- reloads and moves of the processes come in whatever order, requests during the wait of a reload
  -- included: the configuration is one that was accepted, each of its programs has one process with
  -- its current settings and is wanted or unwanted, and no other program has either. Programs that
  -- are deeply equal are taken to be equal.
  pub Reach-Fits :
      ((p q : ProgramConfig) → deep_equal p q ≡ true → p ≡ q)
      → (disk : Disk) (path : Str) (cfg : Config) (s : Server) (w : World)
      → parse_config go visit disk path ≡ ok cfg
      → new_server make cfg ≡ done s
      → Reach (record { server = s; reloading = none }) w
      → Fits w.server
  Reach-Fits equal disk path cfg s w parsed made r =
      let unique = (parse_config_lem go visit disk path cfg parsed).2 in
      (Reach-IsKept equal
        (record { server = new_server-Fits make cfg s unique made; reloading = tt }) r).server

-- ===== src/Server/Daemon/Answers.antt =====
-- What `New` and `Reload` of internal/server answer.
use supavisor.Prelude.{
  ◌≡◌, ◌≢◌, refl, sym, subst, ◌++◌, ◌⊎◌, inl, inr, Bool, true, false, Option, none, some, List, Str,
  IsMap, is_empty, if◌then◌else◌, Bool-cases,
}
use supavisor.Config.{Config, ProgramConfig}
use supavisor.Config.Result.{Result, ok, err}
use supavisor.Config.Circular.{Checked, validate_circular}
use supavisor.Config.Validate.{after_circular, validate}
use supavisor.Config.Directories.{ensure_log_directories}
use supavisor.Graph.{Ordered, in_order, circular, no_fuel, topological_sort}
use supavisor.Graph.Orders.{topological_sort-IsOrder}
use supavisor.Server.{Server, request_reconcile, mark_state_dirty}
use supavisor.Server.Reload.{
  Diff, diff_programs, changed_daemon_setting, stop_for_reload, apply_programs,
}
use supavisor.Server.Shutdown.{build_dependency_graph}
use supavisor.Server.Shutdown.Built.{build_dependency_graph-Represents}
use supavisor.Server.Shutdown.Acyclic.{validate_circular_lem}
use supavisor.Server.Daemon.{
  Outcome, done, refused, stuck, if_valid, if_ordered, if_made, if_unset, if_read, Planned,
  begin_plan, nothing_changed, reload_begin, reload_end, end_plan, reload,
}
use supavisor.Config.Health.{Parsers}
use supavisor.Config.Program.{Setting}
use supavisor.Config.Files.{Disk, parse_config}
use supavisor.Config.Files.Merged.{parse_config_lem}

-- The outcome is a refusal, or done with what the predicate says.
abbrev pub Ends : {A : Type 0} → (A → Type 0) → Outcome A → Type 0
Ends P (done a) = P a
Ends P (refused e) = Unit
Ends P stuck = ⊥

module _ {A : Type 0} (P : A → Type 0) (next : Outcome A) where
  if_valid-Ends :
      (v : Option (Result (Unit {0}))) → v ≢ none → Ends P next → Ends P (if_valid v next)
  if_valid-Ends none h n = absurd (h refl)
  if_valid-Ends (some (err e)) h n = tt
  if_valid-Ends (some (ok u)) h n = n

  if_ordered-Ends :
      (o : Ordered (List Str)) → o ≢ no_fuel → Ends P next → Ends P (if_ordered o next)
  if_ordered-Ends (in_order names) h n = n
  if_ordered-Ends circular h n = tt
  if_ordered-Ends no_fuel h n = absurd (h refl)

  if_made-Ends : (o : Option Str) → Ends P next → Ends P (if_made o next)
  if_made-Ends none n = n
  if_made-Ends (some dir) n = tt

  if_unset-Ends : (o : Option Str) → Ends P next → Ends P (if_unset o next)
  if_unset-Ends none n = n
  if_unset-Ends (some setting) n = tt

validate-ends : (cfg : Config) → IsMap cfg.programs → validate cfg ≢ none
unfolding validate
validate-ends cfg unique h =
    (validate_circular_lem cfg unique).0 (after_circular-none (validate_circular cfg) _ h)
  where
    after_circular-none :
        (x : Checked) (rest : Result (Unit {0})) → after_circular x rest ≡ none → x ≡ none
    after_circular-none none rest e = refl
    after_circular-none (some (err e)) rest x = cc
    after_circular-none (some (ok s)) rest x = cc

sort-ends :
    (cfg : Config)
    → IsMap cfg.programs
    → topological_sort (build_dependency_graph cfg.programs) ≢ no_fuel
sort-ends cfg unique =
    (topological_sort-IsOrder (build_dependency_graph cfg.programs)
      (build_dependency_graph-Represents cfg.programs unique).linked).0

module _ (deep_equal : ProgramConfig → ProgramConfig → Bool) where
  -- What a plan is of.
  abbrev IsPlan : Result Config → Server → Planned → Type 0
  IsPlan parsed s plan =
      (cfg : Config) × (parsed ≡ ok cfg)
      × (plan
          ≡ begin_plan deep_equal cfg (diff_programs deep_equal s.config.programs cfg.programs) s)

  reload_begin-Ends :
      (make : Str → Bool) (parsed : Result Config) (s : Server)
      → ((cfg : Config) → parsed ≡ ok cfg → IsMap cfg.programs)
      → Ends (IsPlan parsed s) (reload_begin deep_equal make parsed s)
  unfolding reload_begin
  reload_begin-Ends make parsed s unique = elim (Bool-cases (is_empty s.config.source_path)) [
    | inl none_given ↦ rw none_given tt
    | inr given ↦ rw given (by_result parsed refl)
  ]
    where
      by_result :
          (r : Result Config)
          → parsed ≡ r
          → Ends (IsPlan parsed s) (
              if_read r (λ cfg. if_valid (validate cfg) (
                if_ordered (topological_sort (build_dependency_graph cfg.programs)) (
                  if_unset (changed_daemon_setting s.config.supavisor cfg.supavisor) (
                    if_made (ensure_log_directories make cfg) (
                      done (
                        begin_plan deep_equal cfg
                          (diff_programs deep_equal s.config.programs cfg.programs)
                          s)))))))
      by_result (err e) h = tt
      by_result (ok cfg) h =
          if_valid-Ends (IsPlan parsed s) _ (validate cfg) (validate-ends cfg (unique cfg h)) (
            if_ordered-Ends (IsPlan parsed s) _
              (topological_sort (build_dependency_graph cfg.programs))
              (sort-ends cfg (unique cfg h))
              (if_unset-Ends (IsPlan parsed s) _
                (changed_daemon_setting s.config.supavisor cfg.supavisor)
                (if_made-Ends (IsPlan parsed s) _ (ensure_log_directories make cfg)
                  (cfg, h, refl))))

  -- What the answer says of the server that the reload found and the one that it left.
  abbrev pub IsAnswer : Result Config → Server → Server → Outcome Diff → Type 0
  IsAnswer parsed s t (refused e) = t ≡ s
  IsAnswer parsed s t stuck = ⊥
  IsAnswer parsed s t (done diff) =
      (cfg : Config) × (parsed ≡ ok cfg)
      × (diff ≡ diff_programs deep_equal s.config.programs cfg.programs)
      × (((nothing_changed diff ≡ true) × (t ≡ s))
          ⊎ ((nothing_changed diff ≡ false) × (t.config ≡ cfg)))

  end_plan-IsAnswer :
      (parsed : Result Config) (later s : Server) (o : Outcome Planned)
      → Ends (IsPlan parsed s) o
      → let (t, answer) = end_plan later s o in IsAnswer parsed s t answer
  unfolding reload_end apply_programs request_reconcile mark_state_dirty
  end_plan-IsAnswer parsed later s stuck h = h
  end_plan-IsAnswer parsed later s (refused e) h = refl
  end_plan-IsAnswer parsed later s (done plan) (cfg, e, same) =
      subst (λ p. let (t, answer) = end_plan later s (done p) in IsAnswer parsed s t answer)
        (sym same)
        (by_plan (nothing_changed (diff_programs deep_equal s.config.programs cfg.programs)) refl)
    where
      by_plan :
          (b : Bool)
          → nothing_changed (diff_programs deep_equal s.config.programs cfg.programs) ≡ b
          → let d = diff_programs deep_equal s.config.programs cfg.programs in
            let out : Planned = if b then (d, none) else (
              d,
              some (
                record { config = cfg; diff = d; previous = s.desired },
                stop_for_reload (d.removed ++ d.changed) s,
              ),
            ) in
            let (t, answer) = end_plan later s (done out) in IsAnswer parsed s t answer
      by_plan true x = (cfg, e, refl, inl (x, refl))
      by_plan false x = (cfg, e, refl, inr (x, refl))

  -- A reload of a configuration file ends with an answer, given that its wait ends. A refusal leaves
  -- the server as it was. A success reports the difference between the two configurations, and
  -- leaves the server as it was where there is none, and with the configuration that was read
  -- otherwise.
  pub reload_lem :
      (go : Parsers) (visit : List Setting) (disk : Disk) (make : Str → Bool) (later s : Server)
      → let parsed = parse_config go visit disk s.config.source_path in
        let (t, answer) = reload deep_equal make parsed later s in IsAnswer parsed s t answer
  unfolding reload
  reload_lem go visit disk make later s =
      let path = s.config.source_path in
      let parsed = parse_config go visit disk path in
      end_plan-IsAnswer parsed later s (reload_begin deep_equal make parsed s)
        (reload_begin-Ends make parsed s (λ cfg e. (parse_config_lem go visit disk path cfg e).2))

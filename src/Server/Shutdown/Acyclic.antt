-- ===== src/Server/Shutdown/Acyclic.antt =====
-- The search for circular dependencies of internal/config/config.go, `Validate`, finds
-- what would leave `stopAllProcesses` without an order.
use supavisor.Prelude.{
  Distinct, ◌+◌, ◌≡◌, ◌≢◌, refl, sym, subst, ◌∙◌, inl, inr, true, false, none, some, List, [], ◌∷◌,
  length, Str, str_eq_iff, contains, Dict, lookup, keys, contains-keys, IsMap, has, arith,
  Bool-cases, unseen-le-length, if◌then◌else◌,
}
use supavisor.Config.{Config, ProgramConfig}
use supavisor.Config.Result.{Result, ok, err}
use supavisor.Config.Circular.{
  Search, Checked, check_circular_dependency, check_all_circular, validate_circular,
}
use supavisor.Config.Validate.{after_circular, validate}
use supavisor.Graph.{Graph}
use supavisor.Server.{Server}
use supavisor.Graph.Tiers.{tiers-circular_iff}
use supavisor.Server.Shutdown.Batches.{IsOutermostFirst, stop_all_processes_lem}
use supavisor.Graph.Orders.{topological_sort-circular_iff}
use supavisor.Graph.Even.{times-Distinct}
use supavisor.Graph.Updates.{deps_at}
use supavisor.Graph.Cores.{HasCore, behind-placed}
use supavisor.Server.Shutdown.{stop_all_processes, build_dependency_graph}
use supavisor.Server.Shutdown.Built.{names_of, Represents, build_dependency_graph-Represents}
use supavisor.Server.Shutdown.Cycles.{
  and_then-Ends, IsDone, Ends-map, Ends, Explored, check_circular_dependency-Ends, AreDone,
  Grows-refl,
}

module _ (programs : Dict ProgramConfig) (g : Graph) (r : Represents programs g) where
  -- Between two searches no program is on the stack.
  abbrev IsClear : Search → Type 0
  IsClear s = (a : Str) → has (lookup a g) ≡ true → contains s.stack a ≡ false

  check_one-Ends :
      (name : Str) (done : List Str) (s : Search)
      → Explored programs g r done s
      → IsClear s
      → Ends programs g r (IsDone programs g r name) done s (
          if contains s.visited name
          then some (ok s)
          else check_circular_dependency (2 + length programs) programs name s)
  check_one-Ends name done s e clear = elim (Bool-cases (contains s.visited name)) [
    | inl known ↦ rw known (
      done,
      Grows-refl programs g r done s e,
      λ x. ground (arith, e.visits name, known, clear name x),
    )
    | inr fresh ↦ rw fresh (
        check_circular_dependency-Ends programs g r (2 + length programs) name done s e fresh
          (omega (arith, unseen-le-length programs s.visited)))
  ]

  check_all_circular-Ends :
      (names : List Str) (done : List Str) (s : Search)
      → Explored programs g r done s
      → IsClear s
      → Ends programs g r (AreDone programs g r names) done s (check_all_circular programs names s)
  unfolding check_all_circular contains
  check_all_circular-Ends [] done s e clear =
      (done, Grows-refl programs g r done s e, λ a m x. ground arith)
  check_all_circular-Ends (name ∷ names) done s e clear =
      and_then-Ends programs g r (IsDone programs g r name) (AreDone programs g r (name ∷ names))
        done s _ (check_all_circular programs names) (check_one-Ends name done s e clear)
        (λ done' s' l d.
          Ends-map programs g r (AreDone programs g r names) (AreDone programs g r (name ∷ names))
            done' s' (check_all_circular programs names s')
            (check_all_circular-Ends names done' s' l.explored
              (λ a h. ground (arith, l.stacked a h, clear a h)))
            (λ last t m all a x in_g.
              ground (arith, str_eq_iff name a, all a, m.kept a, d, in_g, x)))

  start-Explored : Explored programs g r [] (record { visited = []; stack = [] })
  unfolding contains
  start-Explored = record { visits = λ a. refl; inside = λ a m. cc; behind = tt }

  start-IsClear : IsClear (record { visited = []; stack = [] })
  unfolding contains
  start-IsClear a h = refl

  accepted-coreless :
      (s : Search)
      → Ends programs g r
          (AreDone programs g r (keys programs))
          []
          (record { visited = []; stack = [] })
          (some (ok s))
      → (placed : List Str) → ¬ HasCore g placed
  accepted-coreless s (done, l, all) placed core =
      let m =
        all core.start
          (contains-keys programs core.start ∙ (sym (r.nodes core.start) ∙ core.start_in))
          core.start_in in
      cc (
        sym core.start_out
        ∙ behind-placed g placed done core l.explored.inside l.explored.behind core.start m)

Ends-answer :
    (programs : Dict ProgramConfig) (g : Graph) (r : Represents programs g) (P : List Str → Type 0)
    (done : List Str) (s : Search) (x : Checked)
    → Ends programs g r P done s x
    → x ≢ none
Ends-answer programs g r P done s none h e = h
Ends-answer programs g r P done s (some y) h e = cc

-- The search for circular dependencies ends, in whatever order the programs come. Where it reports
-- none, there are no programs that each depend on another of them.
pub validate_circular_lem :
    (cfg : Config)
    → IsMap cfg.programs
    → (validate_circular cfg ≢ none)
      × ((s : Search)
          → validate_circular cfg ≡ some (ok s)
          → (placed : List Str) → ¬ HasCore (build_dependency_graph cfg.programs) placed)
unfolding validate_circular
validate_circular_lem cfg unique =
    let g = build_dependency_graph cfg.programs in
    let r = build_dependency_graph-Represents cfg.programs unique in
    let h =
      check_all_circular-Ends cfg.programs g r (keys cfg.programs) []
        (record { visited = []; stack = [] }) (start-Explored cfg.programs g r)
        (start-IsClear cfg.programs g r) in
    (
      λ e.
          Ends-answer cfg.programs g r (AreDone cfg.programs g r (keys cfg.programs)) []
            (record { visited = []; stack = [] }) _ h e,
      λ s e placed.
          accepted-coreless cfg.programs g r s
            (subst
              (Ends cfg.programs g r (AreDone cfg.programs g r (keys cfg.programs)) []
                (record { visited = []; stack = [] }))
              e h)
            placed,
    )

after_circular-ok :
    (x : Checked) (rest : Result (Unit {0}))
    → after_circular x rest ≡ some (ok tt)
    → (s : Search) × (x ≡ some (ok s))
after_circular-ok none rest h = cc
after_circular-ok (some (err e)) rest h = cc
after_circular-ok (some (ok s)) rest h = (s, refl)

-- A configuration that `Validate` accepts, with no dependency listed twice by one program, is always
-- stopped dependents first: a program's dependencies, those of the configuration that are managed,
-- are stopped in later batches.
validate-IsOutermostFirst :
    (s : Server)
    → IsMap s.config.programs
    → IsMap s.processes
    → ((a : Str) → Distinct (names_of (lookup a s.config.programs)))
    → validate s.config ≡ some (ok tt)
    → IsOutermostFirst s (stop_all_processes s) []
unfolding validate
validate-IsOutermostFirst s unique managed_once once h =
    let r = build_dependency_graph-Represents s.config.programs unique in
    let g = build_dependency_graph s.config.programs in
    let even = λ (a n : Str) (present : has (lookup n g) ≡ true).
      times-Distinct (deps_at g a) n (subst Distinct (sym (r.depends a)) (once a)) in
    let (found, e) = after_circular-ok (validate_circular s.config) _ h in
    (stop_all_processes_lem s unique managed_once).1 (λ c.
      let (placed, core) =
        (topological_sort-circular_iff g r.linked even).0 ((tiers-circular_iff g r.linked).0 c) in
      (validate_circular_lem s.config unique).1 found e placed core)

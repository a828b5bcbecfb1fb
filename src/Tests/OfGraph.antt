-- ===== src/Tests/OfGraph.antt =====
-- Tests of the models of internal/dependency/graph.go and of the order of shutdown.
use supavisor.Prelude.{
  text, ◌≡◌, ◌≢◌, ◌↔◌, refl, none, some, List, [], ◌∷◌, Str, str_eq, str_le, contains,
  insert_sorted, sort, Dict, lookup, insert, keys, IsMap,
}
use supavisor.Config.{ProgramConfig, Dependency, condition_started, dependency_names}
use supavisor.Config.Result.{ok, err, circular_dependency}
use supavisor.Config.Circular.{
  Search, check_all_circular, check_circular_dependency, visit_all, drop_name, validate_circular,
}
use supavisor.Config.Validate.{
  validate, validate_dependencies, check_programs, check_dependencies, sorted_program_names,
  validate_log_paths, claim_all, claim_path, validate_socket_path,
}
use supavisor.Process.{new_process}
use supavisor.Graph.{
  Graph, update, without, unlink, link, adopt, adopt_all, add_node, count_present, in_degrees,
  sources, release, drain, topological_sort, release_all, concat, stack_tiers, tiers, in_order,
  circular, no_fuel,
}
use supavisor.Graph.Even.{IsEven}
use supavisor.Graph.Built.{IsLinked}
use supavisor.Graph.Orders.{topological_sort-in_order_iff, topological_sort-IsOrder}
use supavisor.Graph.Cores.{IsOrder, HasCore}
use supavisor.Graph.Tiers.{IsTiering, tiers-IsTiering}
use supavisor.Server.Names.{program_names, sort_names, insert_name, precedes}
use supavisor.Server.Shutdown.{
  add_programs, build_dependency_graph, managed, stop_backwards, stop_all_processes,
}
use supavisor.Server.Shutdown.Built.{Represents, build_dependency_graph-Represents}
use supavisor.Server.Shutdown.Acyclic.{validate_circular_lem}
use supavisor.Tests.Samples.{web, db, both, server, web_program, db_program}

-- What a graph computes with.
graphs : Unit {0}
unfolding build_dependency_graph add_programs dependency_names add_node update link unlink without
    adopt adopt_all topological_sort in_degrees count_present sources drain release tiers
    stack_tiers release_all concat sort insert_sorted lookup insert contains str_eq str_le
    stop_all_processes stop_backwards managed program_names sort_names insert_name precedes keys
    new_process
graphs = tt

abbrev graph : Graph
graph = build_dependency_graph both.programs

both-IsMap : IsMap both.programs
unfolding graphs
both-IsMap = (refl, (refl, tt))

graph-IsLinked : IsLinked graph
graph-IsLinked = (build_dependency_graph-Represents both.programs both-IsMap).linked

graph_order : topological_sort graph ≡ in_order (db ∷ web ∷ [])
unfolding graphs
graph_order = refl

tiers_example : tiers graph ≡ in_order ((db ∷ []) ∷ (web ∷ []) ∷ [])
unfolding graphs
tiers_example = refl

shutdown_order : stop_all_processes server ≡ (web ∷ []) ∷ (db ∷ []) ∷ []
unfolding graphs
shutdown_order = refl

abbrev on_db : Dependency
on_db = record { name = db; condition = condition_started }

-- A dependency that is listed twice counts twice and is lifted once.
listed_twice :
    topological_sort (
      build_dependency_graph
        ((web, record web_program { depends_on = on_db ∷ on_db ∷ [] }) ∷ (db, db_program) ∷ []))
    ≡ circular
unfolding graphs
listed_twice = refl

topological_sort-IsOrder_example :
    (topological_sort graph ≢ no_fuel)
    × ((names : List Str) → topological_sort graph ≡ in_order names → IsOrder graph names)
topological_sort-IsOrder_example = topological_sort-IsOrder graph graph-IsLinked

tiers-IsTiering_example :
    (tiers graph ≢ no_fuel)
    × ((all : List (List Str)) → tiers graph ≡ in_order all → IsTiering graph all)
tiers-IsTiering_example = tiers-IsTiering graph graph-IsLinked

-- Two programs that depend on each other.
abbrev on_web : Dependency
on_web = record { name = web; condition = condition_started }

abbrev knotted : ProgramConfig
knotted = record db_program { depends_on = on_web ∷ [] }

abbrev knot_programs : Dict ProgramConfig
knot_programs = (web, web_program) ∷ (db, knotted) ∷ []

abbrev knot : Graph
knot = build_dependency_graph knot_programs

knot-IsMap : IsMap knot_programs
unfolding graphs
knot-IsMap = (refl, (refl, tt))

knot-Represents : Represents knot_programs knot
knot-Represents = build_dependency_graph-Represents knot_programs knot-IsMap

-- What a validation computes with.
validations : Unit {0}
unfolding graphs validate validate_circular check_all_circular check_circular_dependency visit_all
    drop_name validate_dependencies check_programs check_dependencies sorted_program_names
    validate_log_paths claim_all claim_path validate_socket_path
validations = tt

both_accepted : validate both ≡ some (ok tt)
unfolding validations
both_accepted = refl

knot_rejected :
    validate (record both { programs = knot_programs }) ≡ some (err (circular_dependency db web))
unfolding validations
knot_rejected = refl

-- Two programs that depend on one missing name: the error names a circle that is not there.
missing_twice :
    validate (record both { programs = (db, knotted) ∷ ((text "cache"), knotted) ∷ [] })
    ≡ some (err (circular_dependency (text "cache") web))
unfolding validations
missing_twice = refl

validate_circular_lem_example :
    (validate_circular both ≢ none)
    × ((s : Search)
        → validate_circular both ≡ some (ok s)
        → (placed : List Str) → ¬ HasCore (build_dependency_graph both.programs) placed)
validate_circular_lem_example = validate_circular_lem both both-IsMap

topological_sort-in_order_iff_example :
    ((names : List Str) × (topological_sort knot ≡ in_order names))
    ↔ (IsEven knot × ((placed : List Str) → ¬ HasCore knot placed))
topological_sort-in_order_iff_example = topological_sort-in_order_iff knot knot-Represents.linked

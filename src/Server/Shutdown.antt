-- ===== src/Server/Shutdown.antt =====
-- The graph of a configuration, `buildDependencyGraph` of internal/server/reload.go, and the order
-- in which `stopAllProcesses` of server.go stops the programs. A batch is stopped in parallel, and
-- the next one once that is done.
pub mod Built
pub mod Batches
pub mod Cycles
pub mod Acyclic
use supavisor.Prelude.{
  Bool, true, false, Option, none, some, List, [], ◌∷◌, ◌++◌, if◌then◌else◌, Str, Dict, lookup, has,
}
use supavisor.Config.{ProgramConfig, dependency_names}
use supavisor.Process.{Process}
use supavisor.Graph.{Graph, add_node, Ordered, in_order, circular, no_fuel, tiers}
use supavisor.Server.{Server}
use supavisor.Server.Names.{program_names}

unfoldable pub add_programs : Dict ProgramConfig → Graph → Graph
add_programs [] g = g
add_programs ((name, prog) ∷ programs) g =
    add_programs programs (add_node name (dependency_names prog) g)

unfoldable pub build_dependency_graph : Dict ProgramConfig → Graph
build_dependency_graph programs = add_programs programs []

-- With no tiers, everything is stopped at once.
abbrev pub stop_order : List Str → Ordered (List (List Str)) → List (List Str)
stop_order names (in_order ts) = ts
stop_order names circular = names ∷ []
stop_order names no_fuel = names ∷ []

-- The names of a tier that have a process.
unfoldable pub managed : Dict Process → List Str → List Str
managed processes [] = []
managed processes (name ∷ names) =
    let rest = managed processes names in if has (lookup name processes) then name ∷ rest else rest

-- From the last tier to the first.
unfoldable pub stop_backwards : Dict Process → List (List Str) → List (List Str)
stop_backwards processes [] = []
stop_backwards processes (tier ∷ later) =
    stop_backwards processes later ++ managed processes tier ∷ []

unfoldable pub stop_all_processes : Server → List (List Str)
stop_all_processes s =
    stop_backwards s.processes
      (stop_order (program_names s) (tiers (build_dependency_graph s.config.programs)))

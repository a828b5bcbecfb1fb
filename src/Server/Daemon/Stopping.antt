-- ===== src/Server/Daemon/Stopping.antt =====
-- The shutdown of a server whose configuration `New` or `Reload` of internal/server accepted.
use supavisor.Prelude.{◌≡◌, sym, ◌∙◌, true, Bool, none, List, [], Str, has, lookup, contains, ap}
use supavisor.Config.{Config, ProgramConfig}
use supavisor.Config.Result.{ok}
use supavisor.Config.Health.{Parsers}
use supavisor.Config.Program.{Setting}
use supavisor.Config.Files.{Disk, parse_config}
use supavisor.Graph.{concat}
use supavisor.Graph.Tiers.{tiers-circular_iff}
use supavisor.Server.{Server}
use supavisor.Server.Shutdown.{build_dependency_graph, stop_all_processes}
use supavisor.Server.Shutdown.Built.{build_dependency_graph-Represents}
use supavisor.Server.Shutdown.Batches.{IsOutermostFirst, stop_all_processes_lem}
use supavisor.Server.Daemon.{done, new_server}
use supavisor.Server.Daemon.Fitting.{Fits, has-config_of}
use supavisor.Server.Daemon.Worlds.{World, Reach, Reach-Fits}

-- Every program of the configuration is stopped, and none before one that depends on it.
abbrev pub StopsAll : Server → Type 0
StopsAll s =
    ((a : Str)
      → has (lookup a s.config.programs) ≡ true
      → contains (concat (stop_all_processes s)) a ≡ true)
    × IsOutermostFirst s (stop_all_processes s) []

Fits-StopsAll : (s : Server) → Fits s → StopsAll s
Fits-StopsAll s f =
    let g = build_dependency_graph s.config.programs in
    let r = build_dependency_graph-Represents s.config.programs f.accepted.unique in
    let (every, outermost) = stop_all_processes_lem s f.accepted.unique f.unique in
    let (names, e) = f.accepted.ordered in
    (
      λ a h. every a h (sym (has-config_of (lookup a s.processes)) ∙ (ap has (f.managed a) ∙ h)),
      outermost (λ c. cc (e, (tiers-circular_iff g r.linked).0 c)),
    )

-- From the server that `New` makes of a configuration that was read, after whatever requests,
-- passes, reloads and moves of the processes: a shutdown stops every program of the configuration,
-- and never takes the branch that stops them all at once. A program's dependencies are stopped in
-- later batches than the program. Programs that are deeply equal are taken to be equal.
pub Reach-StopsAll :
    (go : Parsers) (visit : List Setting) (make : Str → Bool)
    (deep_equal : ProgramConfig → ProgramConfig → Bool)
    → ((p q : ProgramConfig) → deep_equal p q ≡ true → p ≡ q)
    → (disk : Disk) (path : Str) (cfg : Config) (s : Server) (w : World)
    → parse_config go visit disk path ≡ ok cfg
    → new_server make cfg ≡ done s
    → Reach go visit make deep_equal (record { server = s; reloading = none }) w
    → StopsAll w.server
Reach-StopsAll go visit make deep_equal equal disk path cfg s w parsed made r =
    Fits-StopsAll w.server
      (Reach-Fits go visit make deep_equal equal disk path cfg s w parsed made r)

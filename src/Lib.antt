-- ===== src/Lib.antt =====
-- supavisor is a process supervisor: a daemon that starts the programs of a YAML file, restarts them
-- when they exit, probes their health, and takes requests from a control command.
--
-- The parts, and where they are modelled:
-- - Config.antt and below: internal/config. The file's programs become `ProgramConfig` records
--   (`convertProgram` is `convert_program`, `convertHealthCheck` is `convert_health_check`,
--   `parseBytes` is `parse_bytes`). A Go error is a `ConfigError` in a `Result`. Validate.antt is
--   `Validate`, Circular.antt its search for circular dependencies. Files.antt is `ParseConfig`, which
--   merges the main file and the files beside it, and Directories.antt is `EnsureLogDirectories`.
--   DependsOn.antt is the two forms of `depends_on` of dependency.go.
-- - Process.antt and below: internal/process. One record for the struct `Process`, and one function
--   for each method. A method that waits is cut at its wait: `Stop` is `stop_begin` and
--   `stop_finish`, `monitor` is `monitor_exit` and, for `maybeRestart`, `restart_begin` and
--   `restart_end`. What the operating system answers is an argument (`StartEnv`, `WaitStatus`,
--   `StopWait`). Life.antt puts the pieces in any order.
--   Reaper.antt is the table of reaper.go, Reaper/Worlds.antt what the kernel does beside it, and
--   Reaper/Rounds.antt the two steps of a round of `reapAll`.
-- - Server.antt and below: internal/server. The maps of the struct `Server` are association lists.
--   Reconcile.antt is `reconcile`, which compares the desired state with the processes and launches
--   starts and stops, Reload.antt is what `Reload` makes of a new configuration, Orphans.antt is
--   the state file and `reapOrphans`, Blocking.antt is `blockedByDependency`, and Requests.antt is
--   `StartProcess` and `StopProcess` up to their wait and `awaitState` over what its polls find.
--   Shutdown.antt is `buildDependencyGraph` and the order of `stopAllProcesses`. Daemon.antt is `New`
--   and `Reload` as a whole, Daemon/Worlds.antt everything that can happen to a server afterwards.
--   Restart.antt is the requests with their waits, Status.antt is `GetStatus`, Ipc.antt is
--   `handleRequest` of ipc.go, Connections.antt is its loop, its goroutines and `Stop`, and
--   Pidlock.antt is the PID file lock that daemons compete for.
-- - Graph.antt and below: internal/dependency. The nodes behind Go's pointers are values in a map.
-- - Logrotate.antt and below: internal/logrotate. The directory is a map from names to entries, and
--   which of the calls on it fail is an argument (`Env`).
-- - Prelude.antt and below: numbers, byte strings, finite maps and lists.
--
-- The server drives processes through `Start` and `Stop`, and hears of them by callbacks: here the
-- events that a process keeps. A pass of `reconcile` takes the server's lock for each program anew, and
-- goroutines run in between: what each visit finds is an argument (`Visit`), and a pass returns the
-- list of the actions that it launched as goroutines. The reads of a visit may be of different moments;
-- what it does to the server in the end, `noteBlocked` and `runAction`, is one step.
--
-- Numbers: a Go `int` or `int64` is an integer with the wrap written out where the code multiplies
-- (`to_int64`); durations are nanoseconds. Loops are recursions on the list that the code ranges
-- over, or on the list of answers that a polling loop gets. The search
-- `blocked_by_dependency` gets fuel, two more than there are processes: each call that goes deeper is for
-- a process that no call has entered before. `check_circular_dependency` gets as much, for programs, for the
-- same reason. The loops of the two sorts of the graph get as much as
-- there are nodes: each round places a node that was not placed. `digits_of` gets one more than
-- the number that it prints.
-- Go ranges over a map in no fixed order: such a loop takes the order of the association list, and
-- the theorems hold for every such list; where the keys come from elsewhere, the order is an argument.
--
-- Not modelled: YAML, JSON, the socket and what goes over it, and the logging of the daemon itself; the
-- probes' network calls; the text of an uptime, which goes through floating point; the commands
-- under cmd. Reading a file, decoding it and listing a directory are arguments (`Disk`).
-- `time.ParseDuration` and the parsers of addresses and URLs are parameters (`Parsers`), and so are
-- `reflect.DeepEqual` and the cutoff that `AddDate` gives for the age of a backup. What a goroutine does between two waits is one step, although the
-- code gives up its lock within some of them. Two monitors that run at once for one process are not
-- modelled.
pub mod Prelude
pub mod Config
pub mod Process
pub mod Graph
pub mod Logrotate
pub mod Server
mod Tests

-- ===== src/Config/Directories.antt =====
-- The directories of the log files: `EnsureLogDirectories` and `getDir` of internal/config/config.go.
-- Whether a directory can be made is the parameter `make`.
use supavisor.Prelude.{
  Bool, Option, none, some, List, [], ◌∷◌, if◌then◌else◌, Str, is_empty, contains, Dict,
}
use supavisor.Config.{Config, ProgramConfig}
use supavisor.Config.Text.{split_last}

unfoldable pub get_dir : Str → Str
get_dir path = elim (split_last b'/' path) [ none ↦ [] | some (front, back) ↦ front ]

-- `dirs[dir] = true`, unless the directory is empty.
unfoldable pub add_dir : Str → List Str → List Str
add_dir path dirs =
    let dir = get_dir path in
    if is_empty dir then dirs else if contains dirs dir then dirs else dir ∷ dirs

unfoldable pub program_dirs : Dict ProgramConfig → List Str → List Str
program_dirs [] dirs = dirs
program_dirs ((name, prog) ∷ programs) dirs =
    program_dirs programs (add_dir prog.stderr_logfile (add_dir prog.stdout_logfile dirs))

-- The first directory that cannot be made.
unfoldable pub make_dirs : (Str → Bool) → List Str → Option Str
make_dirs make [] = none
make_dirs make (dir ∷ dirs) = let rest = make_dirs make dirs in if make dir then rest else some dir

-- An empty path has no directory, as in the source, which does not ask for it.
unfoldable pub ensure_log_directories : (Str → Bool) → Config → Option Str
ensure_log_directories make cfg =
    make_dirs make (add_dir cfg.supavisor.log_file (program_dirs cfg.programs []))

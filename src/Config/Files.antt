-- ===== src/Config/Files.antt =====
-- Reading the configuration, `ParseConfig` of internal/config/config.go: the main file, and the files
-- beside it that only define programs. Reading a file, decoding YAML and listing a directory are
-- arguments. Paths are clean, as filepath.Join leaves them.
pub mod Entries
pub mod Merging
pub mod Merged
use supavisor.Prelude.{
  Bool, true, false, not, ◌&&◌, ◌||◌, Option, none, some, List, [], ◌∷◌, ◌++◌, if◌then◌else◌, Str,
  text, str_eq, is_empty, sort, Dict, lookup, insert,
}
use supavisor.Config.{Config, ProgramConfig, SupavisorConfig}
use supavisor.Config.Result.{
  Result, ok, err, ◌>>=◌, ◌>>◌, guard, unreadable_file, malformed_file, unreadable_fragments,
  fragment_has_settings, duplicate_program, bad_program,
}
use supavisor.Config.Text.{split_last, strip_suffix, to_lower}
use supavisor.Config.Health.{Parsers}
use supavisor.Config.Program.{ProgramFile, Setting, default_string, convert_program}

pub record SupavisorFile : Type 0 where
  pub log_file : Str
  pub pid_file : Str
  pub socket : Str
  pub socket_group : Str
  pub log_format : Str
  pub log_level : Str

-- A program without settings is null.
pub record ConfigFile : Type 0 where
  pub programs : Dict (Option ProgramFile)
  pub supavisor : SupavisorFile

abbrev pub empty_section : SupavisorFile
empty_section = record {
  log_file = [];
  pid_file = [];
  socket = [];
  socket_group = [];
  log_format = [];
  log_level = [];
}

abbrev empty_file : ConfigFile
empty_file = record { programs = []; supavisor = empty_section }

-- What the decoder makes of the bytes of a file; an empty file is the end of its input at once.
pub data Decoded : Type 0 where
  decoded : ConfigFile → Decoded
  no_document : Decoded
  malformed : Decoded

-- What os.ReadDir answers: names, and whether each is a directory.
pub data Listing : Type 0 where
  listing : List (Str × Bool) → Listing
  no_directory : Listing
  unreadable : Listing

pub record Disk : Type 0 where
  pub read_file : Str → Option Str
  pub decode : Str → Decoded
  pub read_dir : Str → Listing

abbrev of_decoded : Str → Decoded → Result ConfigFile
of_decoded path (decoded file) = ok file
of_decoded path no_document = ok empty_file
of_decoded path malformed = err (malformed_file path)

unfoldable pub parse_config_file_raw : Disk → Str → Result ConfigFile
parse_config_file_raw disk path = elim (disk.read_file path) [
  | none ↦ err (unreadable_file path)
  | some bytes ↦ of_decoded path (disk.decode bytes)
]

unfoldable pub is_supavisor_section_empty : SupavisorFile → Bool
is_supavisor_section_empty s =
    is_empty s.log_file
    && (is_empty s.pid_file
        && (is_empty s.socket
            && (is_empty s.socket_group && (is_empty s.log_format && is_empty s.log_level))))

-- filepath.Dir with the slash behind it, and filepath.Base.
abbrev path_parts : Str → Str × Str
path_parts path = elim (split_last b'/' path) [
  | none ↦ ([], path)
  | some (front, back) ↦ (front ++ b'/' ∷ [], back)
]

-- filepath.Ext, and what is before it.
abbrev name_parts : Str → Str × Str
name_parts name = elim (split_last b'.' name) [
  | none ↦ (name, [])
  | some (stem, ext) ↦ (stem, b'.' ∷ ext)
]

unfoldable pub fragment_dir : Str → Str
fragment_dir path = (path_parts path).0 ++ (name_parts (path_parts path).1).0 ++ text ".d"

abbrev is_fragment : Str → Bool → Bool
is_fragment name is_dir =
    let ext = to_lower (name_parts name).1 in
    not is_dir && (str_eq ext (text ".yml") || str_eq ext (text ".yaml"))

unfoldable pub fragment_paths : Str → List (Str × Bool) → List Str
fragment_paths dir [] = []
fragment_paths dir ((name, is_dir) ∷ entries) =
    let rest = fragment_paths dir entries in
    if is_fragment name is_dir then (dir ++ b'/' ∷ name) ∷ rest else rest

abbrev paths_of : Str → Listing → Result (List Str)
paths_of dir (listing entries) = ok (sort (fragment_paths dir entries))
paths_of dir no_directory = ok []
paths_of dir unreadable = err (unreadable_fragments dir)

unfoldable pub list_fragment_files : Disk → Str → Result (List Str)
list_fragment_files disk dir = paths_of dir (disk.read_dir dir)

abbrev pub named : Str → Str → Result ProgramConfig → Result ProgramConfig
named name path (ok prog) = ok prog
named name path (err e) = err (bad_program name path e)

-- The programs so far, and the file that each was defined in.
pub record Merge : Type 0 where
  pub programs : Dict ProgramConfig
  pub origins : Dict Str

module _ (go : Parsers) (visit : List Setting) where
  abbrev pub add_converted : Str → Str → Merge → ProgramConfig → Merge
  add_converted path name m prog = record {
    programs = insert name prog m.programs;
    origins = insert name path m.origins;
  }

  -- The body of the loop.
  abbrev pub merge_program : Str → Str → Option ProgramFile → Merge → Result Merge
  merge_program path name none m = ok m
  merge_program path name (some raw) m = elim (lookup name m.origins) [
    | some other ↦ err (duplicate_program name other path)
    | none ↦ named name path (convert_program go visit name raw) >>= λ prog.
        ok (add_converted path name m prog)
  ]

  unfoldable pub merge_programs : Str → Dict (Option ProgramFile) → Merge → Result Merge
  merge_programs path [] m = ok m
  merge_programs path ((name, raw) ∷ later) m =
      merge_program path name raw m >>= merge_programs path later

  unfoldable pub origins_of : Str → Dict ProgramConfig → Dict Str
  origins_of path [] = []
  origins_of path ((name, prog) ∷ programs) = insert name path (origins_of path programs)

  unfoldable pub parse_config_file : Disk → Str → Result Config
  parse_config_file disk path = parse_config_file_raw disk path >>= λ file.
      merge_programs path file.programs (record { programs = []; origins = [] }) >>= λ m.
      ok (record {
        programs = m.programs;
        source_path = path;
        supavisor = record {
          log_file = file.supavisor.log_file;
          pid_file = default_string file.supavisor.pid_file (text "/var/run/supavisor.pid");
          socket = default_string file.supavisor.socket (text "/tmp/supavisor.sock");
          socket_group = file.supavisor.socket_group;
          log_format = default_string file.supavisor.log_format (text "text");
          log_level = default_string file.supavisor.log_level (text "info");
        };
      })

  unfoldable pub merge_fragment : Disk → Str → Merge → Result Merge
  merge_fragment disk path m = parse_config_file_raw disk path >>= λ file.
      guard (is_supavisor_section_empty file.supavisor) (fragment_has_settings path)
      >> merge_programs path file.programs m

  unfoldable pub merge_fragments : Disk → List Str → Merge → Result Merge
  merge_fragments disk [] m = ok m
  merge_fragments disk (path ∷ paths) m = merge_fragment disk path m >>= merge_fragments disk paths

  unfoldable pub parse_config : Disk → Str → Result Config
  parse_config disk path = parse_config_file disk path >>= λ cfg.
      list_fragment_files disk (fragment_dir path) >>= λ paths.
      merge_fragments disk paths
        (record { programs = cfg.programs; origins = origins_of path cfg.programs })
      >>= λ m. ok (record cfg { programs = m.programs })

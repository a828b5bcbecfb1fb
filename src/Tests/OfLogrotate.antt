-- ===== src/Tests/OfLogrotate.antt =====
-- Tests of the model of internal/logrotate/writer.go.
use supavisor.Prelude.{
  ◌≡◌, refl, ℕ, true, false, some, List, [], ◌∷◌, Str, text, str_eq, lookup, insert, delete, IsMap,
  arith,
}
use supavisor.Prelude.Int.{pos}
use supavisor.Config.Text.{strip_prefix}
use supavisor.Logrotate.{
  Env, Entry, Directory, Writer, digits_of, decimal_text, backup_path, number_from, backup_number,
  rename, shift_down, shift_backups, prune_entries, prune, rotate, take, append, write,
  entry_is_dir, new_writer, close,
}
use supavisor.Logrotate.Shift.{IsQuiet, IsShifted, shift_backups_lem}
use supavisor.Logrotate.Sizes.{IsTracked, write-IsTracked}
use supavisor.Logrotate.Bounds.{Holds, write-Holds}

abbrev log : Str
log = text "a.log"

abbrev file_with : List ℕ → Entry
file_with content = record { is_dir = false; content = content; modified = 100 }

abbrev full : Entry
full = file_with (1 ∷ 2 ∷ 3 ∷ [])

-- A log with one backup, and one that is beyond two backups.
abbrev logs : Directory
logs =
    (log, full)
    ∷ (text "a.log.1", file_with (9 ∷ []))
    ∷ (text "a.log.7", file_with (8 ∷ []))
    ∷ (text "a.log.old", file_with (7 ∷ []))
    ∷ []

abbrev writer : Writer
writer = record {
  is_open = true;
  path = log;
  max_bytes = pos 4;
  size = pos 3;
  backups = pos 2;
  max_age = pos 0;
}

abbrev quiet : Env
quiet = record {
  now = 200;
  cutoff = 0;
  close_fails = false;
  open_fails = false;
  stat_fails = false;
  read_dir_fails = false;
  rename_log_fails = false;
  remove_log_fails = false;
  stat_backup_fails = λ i. false;
  rename_backup_fails = λ i. false;
  info_fails = λ name. false;
  remove_fails = λ name. false;
  room = 100;
}

-- What a write computes with.
writes : Unit {0}
unfolding digits_of decimal_text backup_path number_from backup_number rename shift_down
    shift_backups prune_entries prune rotate take append write lookup insert delete str_eq
    strip_prefix new_writer close
writes = tt

write_rotates :
    (write quiet (4 ∷ 5 ∷ []) writer logs).dir
    ≡ (text "a.log.old", file_with (7 ∷ []))
      ∷ (text "a.log.2", file_with (9 ∷ []))
      ∷ (text "a.log.1", full)
      ∷ (log, record { is_dir = false; content = 4 ∷ 5 ∷ []; modified = 200 })
      ∷ []
unfolding writes
write_rotates = refl

logs-IsMap : IsMap logs
unfolding writes
logs-IsMap = (refl, (refl, (refl, (refl, tt))))

quiet-IsQuiet : IsQuiet quiet
quiet-IsQuiet = record { stats = λ i. refl; renames = λ i. refl; log = refl; removal = refl }

all_files : (a : Str) → entry_is_dir (lookup a logs) ≡ false
unfolding lookup
all_files a = ground arith

writer-IsTracked : IsTracked writer logs
unfolding writes
writer-IsTracked = record { unique = logs-IsMap; current = λ h. (full, refl, refl, refl) }

writer-found : lookup log logs ≡ some full
unfolding writes
writer-found = refl

writer-shifts : (shift_backups quiet writer logs).1 ≡ true
unfolding writes
writer-shifts = refl

shift_backups_lem_example :
    (d' : Directory) × (shift_backups quiet writer logs ≡ (d', true))
    × IsShifted log (pos 2) logs d'
shift_backups_lem_example =
    shift_backups_lem quiet writer logs quiet-IsQuiet (omega arith)
      (λ i. all_files (backup_path log i))

-- A name with leading zeros is a backup too.
abbrev padded : Directory
padded = (log, full) ∷ (text "a.log.007", file_with (8 ∷ [])) ∷ (text "a.log.000", full) ∷ []

padded_pruned : prune quiet writer padded ≡ (log, full) ∷ (text "a.log.000", full) ∷ []
unfolding writes
padded_pruned = refl

write-IsTracked_example :
    IsTracked (write quiet (4 ∷ []) writer logs).writer (write quiet (4 ∷ []) writer logs).dir
write-IsTracked_example = write-IsTracked quiet (4 ∷ []) writer logs refl writer-IsTracked

write-Holds_example :
    Holds 4 100 (4 ∷ 5 ∷ []) full (lookup log (write quiet (4 ∷ 5 ∷ []) writer logs).dir)
write-Holds_example =
    write-Holds quiet (4 ∷ 5 ∷ []) writer logs full 3 writer-IsTracked refl writer-found refl
      (omega arith) refl refl writer-shifts

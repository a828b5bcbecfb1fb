-- ===== src/Logrotate/Maps.antt =====
-- A rotation keeps each name once (internal/logrotate/writer.go).
use supavisor.Prelude.{
  ℕ, zero, suc, Bool, true, false, not, ◌&&◌, ◌||◌, Option, none, some, [], ◌∷◌, if◌then◌else◌, Str,
  lookup, delete, delete-IsMap, insert-IsMap, IsMap,
}
use supavisor.Prelude.Int.{ℤ, pos, negsuc}
use supavisor.Logrotate.{
  Env, Entry, Directory, Writer, backup_path, moved, rename, shift_down, shift_log, shift_kept,
  shift_backups, is_there, entry_is_dir, is_doomed, prune_entries, prune, created,
}

rename-IsMap : (from to : Str) (d : Directory) → IsMap d → IsMap (rename from to d)
unfolding rename
rename-IsMap from to d m = by_entry (lookup from d)
  where
    by_entry : (o : Option Entry) → IsMap (moved from to o d)
    by_entry none = m
    by_entry (some e) = insert-IsMap to e (delete from d) (delete-IsMap from d m)

if-IsMap :
    (t : Bool) (x y : Directory × Bool) → IsMap x.0 → IsMap y.0 → IsMap (if t then x else y).0
if-IsMap true x y hx hy = hx
if-IsMap false x y hx hy = hy

shift_down-IsMap :
    (env : Env) (path : Str) (n : ℕ) (d : Directory) → IsMap d → IsMap (shift_down env path n d).0
unfolding shift_down
shift_down-IsMap env path zero d m = m
shift_down-IsMap env path (suc i) d m =
    let from = backup_path path (suc i) in
    let to = backup_path path (suc (suc i)) in
    if-IsMap (env.stat_backup_fails (suc i) || not (is_there (lookup from d)))
      (shift_down env path i d)
      (if env.rename_backup_fails (suc i) || entry_is_dir (lookup to d)
        then (d, false)
        else shift_down env path i (rename from to d))
      (shift_down-IsMap env path i d m)
      (if-IsMap (env.rename_backup_fails (suc i) || entry_is_dir (lookup to d)) (d, false)
        (shift_down env path i (rename from to d)) m
        (shift_down-IsMap env path i (rename from to d) (rename-IsMap from to d m)))

shift_log-IsMap :
    (env : Env) (path : Str) (out : Directory × Bool)
    → IsMap out.0
    → IsMap (shift_log env path out).0
shift_log-IsMap env path (d, false) m = m
shift_log-IsMap env path (d, true) m = if-IsMap _ _ _ m (rename-IsMap path (backup_path path 1) d m)

pub shift_backups-IsMap :
    (env : Env) (w : Writer) (d : Directory) → IsMap d → IsMap (shift_backups env w d).0
unfolding shift_backups
shift_backups-IsMap env w d m = by_count w.backups
  where
    by_count : (k : ℤ) → IsMap (shift_kept env w.path k d).0
    by_count (pos (suc n)) =
        shift_log-IsMap env w.path (shift_down env w.path n d) (shift_down-IsMap env w.path n d m)
    by_count (pos zero) = if-IsMap _ _ _ m (delete-IsMap w.path d m)
    by_count (negsuc n) = if-IsMap _ _ _ m (delete-IsMap w.path d m)

prune_entries-IsMap :
    (env : Env) (w : Writer) (entries d : Directory)
    → IsMap d
    → IsMap (prune_entries env w entries d)
unfolding prune_entries
prune_entries-IsMap env w [] d m = m
prune_entries-IsMap env w ((name, entry) ∷ entries) d m =
    prune_entries-IsMap env w entries _
      (removed (is_doomed env w name entry && not (env.remove_fails name)))
  where
    removed : (t : Bool) → IsMap (if t then delete name d else d)
    removed true = delete-IsMap name d m
    removed false = m

pub prune-IsMap : (env : Env) (w : Writer) (d : Directory) → IsMap d → IsMap (prune env w d)
unfolding prune
prune-IsMap env w d m = by_read env.read_dir_fails
  where
    by_read : (t : Bool) → IsMap (if t then d else prune_entries env w d d)
    by_read true = m
    by_read false = prune_entries-IsMap env w d d m

pub created-IsMap :
    (env : Env) (path : Str) (o : Option Entry) (d : Directory)
    → IsMap d
    → IsMap (created env path o d)
created-IsMap env path none d m = insert-IsMap path _ d m
created-IsMap env path (some e) d m = m

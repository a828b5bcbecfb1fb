-- ===== src/Logrotate.antt =====
-- The log files of internal/logrotate/writer.go. A directory is a map from the names of its entries,
-- and the log is named by its base name. What the calls of the package os run into, and how much of
-- a text the file takes, comes from the environment; the lock of a writer makes each method one step.
pub mod Names
pub mod Numbers
pub mod Moves
pub mod Shift
pub mod Prune
pub mod Maps
pub mod Sizes
pub mod Bounds
use supavisor.Prelude.{
  ℕ, zero, suc, ◌+◌, ◌-◌, ◌*◌, ◌/◌, ◌%◌, Bool, true, false, not, ◌&&◌, ◌||◌, ltb, ◌==◌, Option,
  none, some, List, [], ◌∷◌, ◌++◌, length, if◌then◌else◌, Str, Dict, lookup, insert, delete,
}
use supavisor.Prelude.Int.{two_64, ℤ, pos, negsuc, ltb_ℤ, to_int64}
use supavisor.Config.Text.{is_digit, strip_prefix}

pub record Entry : Type 0 where
  pub is_dir : Bool
  pub content : List ℕ
  pub modified : ℕ

abbrev pub Directory : Type 0
Directory = Dict Entry

-- `is_open` is that the file is not nil.
pub record Writer : Type 0 where
  pub is_open : Bool
  pub path : Str
  pub max_bytes : ℤ
  pub size : ℤ
  pub backups : ℤ
  pub max_age : ℤ

-- What the operating system answers during one call: the time, the oldest time that is kept, which
-- calls fail, and how many bytes a write takes.
pub record Env : Type 0 where
  pub now : ℕ
  pub cutoff : ℕ
  pub close_fails : Bool
  pub open_fails : Bool
  pub stat_fails : Bool
  pub read_dir_fails : Bool
  pub rename_log_fails : Bool
  pub remove_log_fails : Bool
  pub stat_backup_fails : ℕ → Bool
  pub rename_backup_fails : ℕ → Bool
  pub info_fails : Str → Bool
  pub remove_fails : Str → Bool
  pub room : ℕ

-- `%d` of a number, with fuel for its digits.
unfoldable pub digits_of : ℕ → ℕ → Str
digits_of zero n = []
digits_of (suc fuel) n =
    let front = digits_of fuel (n / 10) in
    if ltb n 10 then (b'0' + n) ∷ [] else front ++ (b'0' + n % 10) ∷ []

unfoldable pub decimal_text : ℕ → Str
decimal_text n = digits_of (suc n) n

unfoldable pub backup_path : Str → ℕ → Str
backup_path path num = path ++ b'.' ∷ decimal_text num

-- The number as the bits of an int.
unfoldable pub number_from : ℕ → Str → Option ℕ
number_from num [] = some num
number_from num (r ∷ s) =
    let rest = number_from ((num * 10 + (r - b'0')) % two_64) s in if is_digit r then rest else none

abbrev pub unless_zero : Option ℕ → Option ℤ
unless_zero none = none
unless_zero (some zero) = none
unless_zero (some (suc n)) = some (to_int64 (suc n))

unfoldable pub backup_number : Str → Option ℤ
backup_number [] = none
backup_number (c ∷ s) = unless_zero (number_from 0 (c ∷ s))

abbrev pub entry_is_dir : Option Entry → Bool
entry_is_dir none = false
entry_is_dir (some e) = e.is_dir

abbrev pub created : Env → Str → Option Entry → Directory → Directory
created env path none d =
    insert path (record { is_dir = false; content = []; modified = env.now }) d
created env path (some e) d = d

-- O_CREATE with O_APPEND; a directory is not opened.
abbrev pub open_append : Env → Str → Directory → Option Directory
open_append env path d =
    if env.open_fails || entry_is_dir (lookup path d)
    then none
    else some (created env path (lookup path d) d)

abbrev pub moved : Str → Str → Option Entry → Directory → Directory
moved from to none d = d
moved from to (some e) d = insert to e (delete from d)

-- `os.Rename`. It replaces a file, and fails on a directory.
unfoldable pub rename : Str → Str → Directory → Directory
rename from to d = moved from to (lookup from d) d

abbrev pub is_there : Option Entry → Bool
is_there none = false
is_there (some e) = true

-- The loop from `i` down to 1, and whether it got through.
unfoldable pub shift_down : Env → Str → ℕ → Directory → Directory × Bool
shift_down env path zero d = (d, true)
shift_down env path (suc i) d =
    let renamed =
      shift_down env path i
        (rename (backup_path path (suc i)) (backup_path path (suc (suc i))) d) in
    let skipped = shift_down env path i d in
    if env.stat_backup_fails (suc i) || not (is_there (lookup (backup_path path (suc i)) d))
    then skipped
    else if env.rename_backup_fails (suc i)
        || entry_is_dir (lookup (backup_path path (suc (suc i))) d)
    then (d, false)
    else renamed

-- The last rename; a log that is not there is no error.
abbrev pub shift_log : Env → Str → Directory × Bool → Directory × Bool
shift_log env path (d, false) = (d, false)
shift_log env path (d, true) =
    if env.rename_log_fails || entry_is_dir (lookup (backup_path path 1) d)
    then (d, false)
    else (rename path (backup_path path 1) d, true)

abbrev pub shift_kept : Env → Str → ℤ → Directory → Directory × Bool
shift_kept env path (pos (suc n)) d = shift_log env path (shift_down env path n d)
shift_kept env path (pos zero) d =
    if env.remove_log_fails then (d, false) else (delete path d, true)
shift_kept env path (negsuc n) d =
    if env.remove_log_fails then (d, false) else (delete path d, true)

unfoldable pub shift_backups : Env → Writer → Directory → Directory × Bool
shift_backups env w d = shift_kept env w.path w.backups d

abbrev pub is_expired : Env → Writer → Str → Entry → Bool
is_expired env w name entry =
    ltb_ℤ (pos 0) w.max_age && (not (env.info_fails name) && ltb entry.modified env.cutoff)

abbrev pub number_of : Option Str → Option ℤ
number_of none = none
number_of (some suffix) = backup_number suffix

abbrev pub is_beyond : ℤ → Bool → Option ℤ → Bool
is_beyond backups expired none = false
is_beyond backups expired (some num) = ltb_ℤ backups num || expired

-- Whether the loop of `prune` removes the entry.
abbrev pub is_doomed : Env → Writer → Str → Entry → Bool
is_doomed env w name entry =
    not entry.is_dir
    && is_beyond w.backups (is_expired env w name entry)
        (number_of (strip_prefix (w.path ++ b'.' ∷ []) name))

unfoldable pub prune_entries : Env → Writer → Directory → Directory → Directory
prune_entries env w [] d = d
prune_entries env w ((name, entry) ∷ entries) d =
    prune_entries env w entries
      (if is_doomed env w name entry && not (env.remove_fails name) then delete name d else d)

unfoldable pub prune : Env → Writer → Directory → Directory
prune env w d = if env.read_dir_fails then d else prune_entries env w d d

abbrev pub size_of : Option Entry → ℤ
size_of none = pos 0
size_of (some e) = to_int64 (length e.content)

pub record Rotated : Type 0 where
  pub writer : Writer
  pub dir : Directory
  pub succeeded : Bool

abbrev pub reopened : Env → Writer → Bool → Directory → Option Directory → Rotated
reopened env w shifted left none = record {
  writer = record w { is_open = false };
  dir = left;
  succeeded = false;
}
reopened env w shifted left (some d) =
    let w' = record w {
      is_open = true;
      size = if env.stat_fails then pos 0 else size_of (lookup w.path d);
    } in
    record { writer = w'; dir = prune env w' d; succeeded = shifted }

unfoldable pub rotate : Env → Writer → Directory → Rotated
rotate env w d =
    let (left, shifted) = shift_backups env w d in
    if env.close_fails
    then record { writer = w; dir = d; succeeded = false }
    else reopened env w shifted left (open_append env w.path left)

unfoldable pub take : ℕ → List ℕ → List ℕ
take zero p = []
take (suc n) [] = []
take (suc n) (x ∷ p) = x ∷ take n p

-- The sum as an int64.
abbrev pub plus : ℤ → ℕ → ℤ
plus (pos m) n = to_int64 (m + n)
plus (negsuc m) n = to_int64 (two_64 - suc m + n)

abbrev pub appended : Env → Str → List ℕ → Option Entry → Directory → Directory
appended env path p none d = d
appended env path p (some e) d =
    insert path (record e { content = e.content ++ p; modified = env.now }) d

-- What a call of `Write` returns: the bytes that were taken, and whether there is an error.
pub record Written : Type 0 where
  pub writer : Writer
  pub dir : Directory
  pub count : ℕ
  pub failed : Bool

unfoldable pub append : Env → List ℕ → Writer → Directory → Written
append env p w d =
    let taken = take env.room p in
    record {
      writer = record w { size = plus w.size (length taken) };
      dir = appended env w.path taken (lookup w.path d) d;
      count = length taken;
      failed = ltb (length taken) (length p);
    }

abbrev pub is_due : Writer → ℕ → Bool
is_due w n =
    ltb_ℤ (pos 0) w.max_bytes && (ltb_ℤ (pos 0) w.size && ltb_ℤ w.max_bytes (plus w.size n))

abbrev pub after_rotation : Env → List ℕ → Rotated → Written
after_rotation env p r =
    if not r.succeeded && not r.writer.is_open
    then record { writer = r.writer; dir = r.dir; count = 0; failed = true }
    else append env p r.writer r.dir

unfoldable pub write : Env → List ℕ → Writer → Directory → Written
write env p w d =
    if not w.is_open
    then record { writer = w; dir = d; count = 0; failed = true }
    else if is_due w (length p)
    then after_rotation env p (rotate env w d)
    else append env p w d

abbrev pub opened : Env → Str → ℤ → ℤ → ℤ → Option Directory → Option (Writer × Directory)
opened env path max_bytes backups max_age none = none
opened env path max_bytes backups max_age (some d) =
    let w : Writer = record {
      is_open = true;
      path = path;
      max_bytes = max_bytes;
      size = size_of (lookup path d);
      backups = backups;
      max_age = max_age;
    } in
    if env.stat_fails then none else some (w, prune env w d)

-- The directory is there already.
unfoldable pub new_writer : Env → Str → ℤ → ℤ → ℤ → Directory → Option (Writer × Directory)
new_writer env path max_bytes backups max_age d =
    opened env path max_bytes backups max_age (open_append env path d)

-- The writer, and whether the error is nil.
unfoldable pub close : Env → Writer → Writer × Bool
close env w = (record w { is_open = false }, not w.is_open || not env.close_fails)

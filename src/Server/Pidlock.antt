-- ===== src/Server/Pidlock.antt =====
-- The lock that keeps a second daemon from starting: `acquirePIDLock`, `Release` and `removeIfSame` of
-- internal/server/pidlock.go, for daemons that run them at once. Files are numbered as they are
-- created. Opening, locking, looking at the path, removing and closing are a step each, in the
-- order of the code; a daemon can die at any of them.
pub mod Exclusive
use supavisor.Prelude.{ℕ, ◌+◌, ◌≡◌, ◌≢◌, ◌==◌, Bool, true, false, Option, none, some, if◌then◌else◌}
use supavisor.Process.Reaper.{set}

-- Where a daemon is in the code, and the file that it has open. It runs while it is `locked`.
pub data Phase : Type 0 where
  idle : Phase
  opened locked removing closing : (file : ℕ) → Phase

-- The file at the path, the number of the next file, and the daemons.
pub record Locks : Type 0 where
  pub path : Option ℕ
  pub next : ℕ
  pub phase : ℕ → Phase

abbrev pub blank_locks : Locks
blank_locks = record { path = none; next = 0; phase = λ d. idle }

-- Whether the daemon has the lock of the file. The kernel drops it as the file is closed.
abbrev pub holds : Phase → ℕ → Bool
holds idle i = false
holds (opened j) i = false
holds (locked j) i = j == i
holds (removing j) i = j == i
holds (closing j) i = j == i

-- `os.OpenFile` with O_CREATE.
abbrev pub open_or_create : ℕ → Option ℕ → Locks → Locks
open_or_create d none w = record {
  path = some w.next;
  next = w.next + 1;
  phase = set d (opened w.next) w.phase;
}
open_or_create d (some i) w = record w { phase = set d (opened i) w.phase }

unfoldable pub open_pid_file : ℕ → Locks → Locks
open_pid_file d w = open_or_create d w.path w

-- `syscall.Flock` when no daemon has the lock, and the refusal otherwise.
unfoldable pub lock_pid_file : ℕ → ℕ → Locks → Locks
lock_pid_file d i w = record w { phase = set d (locked i) w.phase }

unfoldable pub close_pid_file : ℕ → Locks → Locks
close_pid_file d w = record w { phase = set d idle w.phase }

-- `os.SameFile` of the file at the path and the daemon's own.
abbrev pub same_file : Option ℕ → ℕ → Bool
same_file none i = false
same_file (some j) i = j == i

-- The look of `removeIfSame` at the path.
unfoldable pub stat_pid_file : ℕ → ℕ → Locks → Locks
stat_pid_file d i w =
    if same_file w.path i
    then record w { phase = set d (removing i) w.phase }
    else record w { phase = set d (closing i) w.phase }

-- `os.Remove` of the path, whatever file is there by now.
unfoldable pub remove_pid_file : ℕ → ℕ → Locks → Locks
remove_pid_file d i w = record w { path = none; phase = set d (closing i) w.phase }

-- One step of one daemon. `gives_up` is that the look or the removal fails, and a daemon also dies
-- where writing its PID fails.
pub data Step (w : Locks) : Locks → Type 0 where
  opens : (d : ℕ) → w.phase d ≡ idle → Step w (open_pid_file d w)
  locks :
      (d i : ℕ)
      → w.phase d ≡ opened i
      → ((e : ℕ) → holds (w.phase e) i ≡ false)
      → Step w (lock_pid_file d i w)
  is_refused :
      (d e i : ℕ) → w.phase d ≡ opened i → holds (w.phase e) i ≡ true → Step w (close_pid_file d w)
  looks : (d i : ℕ) → w.phase d ≡ locked i → Step w (stat_pid_file d i w)
  removes : (d i : ℕ) → w.phase d ≡ removing i → Step w (remove_pid_file d i w)
  gives_up :
      (d i : ℕ)
      → holds (w.phase d) i ≡ true
      → Step w (record w { phase = set d (closing i) w.phase })
  closes : (d i : ℕ) → w.phase d ≡ closing i → Step w (close_pid_file d w)
  dies : (d : ℕ) → Step w (close_pid_file d w)

pub data Reach (w : Locks) : Locks → Type 0 where
  here : Reach w w
  step : {u v : Locks} → Reach w u → Step u v → Reach w v

-- The file is not removed while another daemon is between opening it and locking it.
abbrev pub IsCalmStep : {u v : Locks} → Step u v → Type 0
IsCalmStep {u} (removes d i h) = (e : ℕ) → u.phase e ≢ opened i
IsCalmStep (opens d h) = Unit
IsCalmStep (locks d i h free) = Unit
IsCalmStep (is_refused d e i h k) = Unit
IsCalmStep (looks d i h) = Unit
IsCalmStep (gives_up d i h) = Unit
IsCalmStep (closes d i h) = Unit
IsCalmStep (dies d) = Unit

abbrev pub IsCalm : {w v : Locks} → Reach w v → Type 0
IsCalm here = Unit
IsCalm (step r s) = IsCalm r × IsCalmStep s

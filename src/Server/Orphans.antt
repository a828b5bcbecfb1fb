-- ===== src/Server/Orphans.antt =====
-- Processes that outlived a crashed daemon: the state file's records and what becomes of them, in
-- internal/server/state.go. The JSON encoding and the files are not modelled: a state file is what
-- was recorded, or nothing. What `processStartToken` answers is an argument. At startup it depends on
-- when it is asked: the moments are numbered from the first question on.
pub mod Identity
use supavisor.Prelude.{
  ℕ, zero, suc, ◌≡◌, refl, Bool, true, false, not, ◌||◌, ◌&&◌, Option, none, some, List, [], ◌∷◌,
  ◌++◌, if◌then◌else◌, Str, str_eq, is_empty, Dict, arith,
}
use supavisor.Config.{sigterm, sigkill}
use supavisor.Process.{Process, is_stopped}
use supavisor.Process.Stop.{GroupSignal, signal_group}

pub record ChildRecord : Type 0 where
  pub name : Str
  pub start_token : Str
  pub pid : ℕ

pub record ProcessState : Type 0 where
  pub boot_id : Str
  pub children : List ChildRecord

-- What one program adds to the records: nothing where no token can be read.
abbrev record_with : Str → ℕ → Option Str → List ChildRecord
record_with name pid none = []
record_with name pid (some token) = record { name = name; start_token = token; pid = pid } ∷ []

abbrev child_record : (ℕ → Option Str) → Str → ℕ → Bool → List ChildRecord
child_record token_of name zero stopped = []
child_record token_of name (suc pid) true = []
child_record token_of name (suc pid) false = record_with name (suc pid) (token_of (suc pid))

-- The records that `saveState` writes.
unfoldable save_state : (ℕ → Option Str) → Dict Process → List ChildRecord
save_state token_of [] = []
save_state token_of ((name, p) ∷ later) =
    child_record token_of name p.pid (is_stopped p.state) ++ save_state token_of later

abbrev pub same_token : Option Str → Str → Bool
same_token none recorded = false
same_token (some token) recorded = str_eq token recorded

-- One question for each record, at one moment after the other.
unfoldable pub identify_orphans : (ℕ → ℕ → Option Str) → ℕ → List ChildRecord → List ChildRecord
identify_orphans token_of moment [] = []
identify_orphans token_of moment (r ∷ records) =
    let later = identify_orphans token_of (suc moment) records in
    if same_token (token_of moment r.pid) r.start_token then r ∷ later else later

unfoldable pub signal_all : ℕ → List ChildRecord → List GroupSignal
signal_all sig [] = []
signal_all sig (r ∷ records) = signal_group r.pid sig ++ signal_all sig records

-- Signal 0 to the group: a PID that is no PID has no group.
abbrev pub group_alive : (ℕ → Bool) → ℕ → Bool
group_alive alive zero = false
group_alive alive (suc pid) = alive (suc pid)

unfoldable pub any_group_alive : (ℕ → Bool) → List ChildRecord → Bool
any_group_alive alive [] = false
any_group_alive alive (r ∷ records) = group_alive alive r.pid || any_group_alive alive records

unfoldable pub kill_remaining : (ℕ → Bool) → List ChildRecord → List GroupSignal
kill_remaining alive [] = []
kill_remaining alive (r ∷ records) =
    let later = kill_remaining alive records in
    if group_alive alive r.pid then signal_group r.pid sigkill ++ later else later

-- The loop of `waitForOrphans` over the polls that fit before its deadline, each with the groups
-- that were alive then, and what is alive after them.
unfoldable pub wait_for_orphans : List (ℕ → Bool) → (ℕ → Bool) → List ChildRecord → List GroupSignal
wait_for_orphans [] alive orphans = kill_remaining alive orphans
wait_for_orphans (poll ∷ polls) alive orphans =
    let later = wait_for_orphans polls alive orphans in
    if any_group_alive poll orphans then later else []

unfoldable pub stop_orphans : List (ℕ → Bool) → (ℕ → Bool) → List ChildRecord → List GroupSignal
stop_orphans polls alive [] = []
stop_orphans polls alive (r ∷ orphans) =
    signal_all sigterm (r ∷ orphans) ++ wait_for_orphans polls alive (r ∷ orphans)

-- What `reapOrphans` is told: the state file's name and its contents, the running boot, the token
-- of a PID at each moment, and the groups alive over time.
pub record ReapEnv : Type 0 where
  pub state_file : Str
  pub recorded : Option ProcessState
  pub boot_id : Str
  pub token_of : ℕ → ℕ → Option Str
  pub polls : List (ℕ → Bool)
  pub alive : ℕ → Bool

abbrev pub reap_recorded : ReapEnv → Option ProcessState → List GroupSignal
reap_recorded env none = []
reap_recorded env (some state) =
    if is_empty env.boot_id || not (str_eq state.boot_id env.boot_id)
    then []
    else stop_orphans env.polls env.alive (identify_orphans env.token_of 0 state.children)

-- The signals that it sends. A state file that cannot be read is one with nothing recorded.
unfoldable pub reap_orphans : ReapEnv → List GroupSignal
reap_orphans env = if is_empty env.state_file then [] else reap_recorded env env.recorded

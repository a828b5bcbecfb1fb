-- ===== src/Process/Reaper.antt =====
-- The table of children of internal/process/reaper.go. A channel for a status is a number. The lock
-- `forking` makes `spawn` one step for `reapAll`. A child that is not registered yet has no waiter, so
-- `signalGroupIfUnreaped` passes it over. A round of `reapAll` has two steps, as in Reaper/Rounds.antt.
pub mod Worlds
pub mod Rounds
pub mod Exits
use supavisor.Prelude.{
  ℕ, zero, suc, Bool, true, false, ◌==◌, Option, none, some, List, [], ◌∷◌, if◌then◌else◌,
}
use supavisor.Process.Stop.{GroupSignal, signal_group}
use supavisor.Process.Monitor.{WaitStatus}

-- A Go map with numbers as keys.
abbrev pub set {ℓ} : {V : Type ℓ} → ℕ → V → (ℕ → V) → ℕ → V
set k v f j = if j == k then v else f j

abbrev pub Waiters : Type 0
Waiters = ℕ → Option ℕ

-- `start` is the PID that the fork gave, if it did; `exited` is the new channel.
unfoldable pub spawn : Option ℕ → ℕ → Waiters → Waiters × Option ℕ
spawn none exited waiters = (waiters, none)
spawn (some pid) exited waiters = (set pid (some exited) waiters, some exited)

-- One round of `reapAll`: the channel that gets the status, if there is one.
unfoldable pub dispatch : ℕ → Waiters → Waiters × Option ℕ
dispatch pid waiters = (set pid none waiters, waiters pid)

abbrev pub sent : Option ℕ → WaitStatus → List (ℕ × WaitStatus) → List (ℕ × WaitStatus)
sent none status later = later
sent (some exited) status later = (exited, status) ∷ later

-- `reapAll` over what wait4 answers until it has no more: the statuses sent, each to a channel.
unfoldable pub reap_all : List (ℕ × WaitStatus) → Waiters → Waiters × List (ℕ × WaitStatus)
reap_all [] waiters = (waiters, [])
reap_all ((pid, status) ∷ answers) waiters =
    let (rest, exited) = dispatch pid waiters in
    let (last, later) = reap_all answers rest in (last, sent exited status later)

abbrev pub is_waiting : Option ℕ → Bool
is_waiting none = false
is_waiting (some exited) = true

unfoldable pub signal_group_if_unreaped : ℕ → ℕ → Waiters → List GroupSignal
signal_group_if_unreaped zero signal waiters = []
signal_group_if_unreaped (suc pid) signal waiters =
    if is_waiting (waiters (suc pid)) then signal_group (suc pid) signal else []

-- ===== src/Tests/OfReaper.antt =====
-- Tests of the model of internal/process/reaper.go.
use supavisor.Prelude.{ℕ, ◌≡◌, ◌↔◌, ◌⊎◌, refl, none, some, List, [], ◌∷◌, arith}
use supavisor.Process.Monitor.{WaitStatus, exited_with}
use supavisor.Process.Stop.{GroupSignal, signal_group}
use supavisor.Process.Reaper.{spawn, dispatch, reap_all, signal_group_if_unreaped}
use supavisor.Process.Reaper.Worlds.{
  Child, World, boot, forked, adopted, exited, vacated, reaped, channel_of, exit_of,
}
use supavisor.Process.Reaper.Rounds.{Daemon, booted, fork, adopt, exit, collect, Reach, here, step}
use supavisor.Process.Reaper.Exits.{
  Drain, over, more, deliver, reap_all_lem, signal_group_if_unreaped_lem,
}

-- A child that the daemon starts, and an orphan.
abbrev started : World
started = adopted 9 (forked 7 boot)

abbrev child : Child
child = record { channel = some 0; exit = none }

abbrev orphan : Child
orphan = record { channel = none; exit = none }

-- Both exit.
abbrev ended : World
ended = exited 9 orphan (exited_with 0) (exited 7 child (exited_with 3) started)

abbrev answers : List (ℕ × WaitStatus)
answers = (9, exited_with 0) ∷ (7, exited_with 3) ∷ []

abbrev collected : World
collected = reaped 7 (exited_with 3) (reaped 9 (exited_with 0) ended)

abbrev at_rest : World → Daemon
at_rest w = record { world = w; taken = none }

started-Reach : Reach booted (at_rest started)
started-Reach = step (step here (fork 7 refl refl)) (adopt 9 refl)

ended-Reach : Reach booted (at_rest ended)
ended-Reach =
    step (step started-Reach (exit 7 child (exited_with 3) refl refl))
      (exit 9 orphan (exited_with 0) refl refl)

answers-Drain : Drain collected ended answers
answers-Drain =
    more 9 (record orphan { exit = some (exited_with 0) }) (exited_with 0) refl refl
      (more 7 (record child { exit = some (exited_with 3) }) (exited_with 3) refl refl over)

-- The orphan has no channel.
one_sent : (reap_all answers ended.waiters).1 ≡ (0, exited_with 3) ∷ []
unfolding reap_all dispatch spawn
one_sent = refl

none_left : (pid : ℕ) → exit_of (collected.children pid) ≡ none
none_left pid = ground arith

reap_all_lem_example :
    (deliver (reap_all answers ended.waiters).1 ended.delivered 0 ≡ some (exited_with 3))
    ↔ (collected.exits 0 ≡ some (exited_with 3))
reap_all_lem_example = reap_all_lem ended-Reach answers-Drain none_left 0 (exited_with 3)

abbrev term : List GroupSignal
term = record { pid = 7; signal = 15 } ∷ []

signal_group_if_unreaped_lem_example :
    (signal_group_if_unreaped 7 15 started.waiters ≡ [])
    ⊎ ((c : ℕ) × (signal_group_if_unreaped 7 15 started.waiters ≡ term)
        × (channel_of (started.children 7) ≡ some c))
    ⊎ ((status : WaitStatus) × (signal_group_if_unreaped 7 15 started.waiters ≡ term)
        × ((at_rest started).taken ≡ some (7, status))
        × (channel_of (started.children 7) ≡ none))
signal_group_if_unreaped_lem_example = signal_group_if_unreaped_lem started-Reach 7 15

-- In the middle of a round the kernel has given up the child and its PID, and a signal is sent.
abbrev halfway : Daemon
halfway = record { world = vacated 7 ended; taken = some (7, exited_with 3) }

halfway-Reach : Reach booted halfway
halfway-Reach =
    step ended-Reach
      (collect 7 (record child { exit = some (exited_with 3) }) (exited_with 3) refl refl refl)

signaled_halfway :
    (halfway.world.children 7 ≡ none) × (signal_group_if_unreaped 7 15 halfway.world.waiters ≡ term)
unfolding signal_group_if_unreaped signal_group spawn
signaled_halfway = (refl, refl)

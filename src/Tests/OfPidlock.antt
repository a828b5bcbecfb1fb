-- ===== src/Tests/OfPidlock.antt =====
-- Tests of the PID file lock (internal/server/pidlock.go).
use supavisor.Prelude.{ℕ, ◌≡◌, refl, arith}
use supavisor.Server.Pidlock.{
  locked, Locks, blank_locks, open_pid_file, lock_pid_file, close_pid_file, stat_pid_file,
  remove_pid_file, opens, locks, looks, removes, closes, Reach, here, step, IsCalm,
}
use supavisor.Server.Pidlock.Exclusive.{IsGuarded, Reach-IsGuarded, Reach-alone}

-- What the steps compute with.
steps : Unit {0}
unfolding open_pid_file lock_pid_file close_pid_file stat_pid_file remove_pid_file
steps = tt

-- The first daemon runs and then looks at the path.
abbrev one_runs : Locks
one_runs = lock_pid_file 0 0 (open_pid_file 0 blank_locks)

one_reached : Reach blank_locks one_runs
unfolding steps
one_reached = step (step here (opens 0 refl)) (locks 0 0 refl (λ e. ground arith))

one-IsCalm : IsCalm one_reached
unfolding one_reached
one-IsCalm = ((tt, tt), tt)

Reach-IsGuarded_example : IsGuarded one_runs
Reach-IsGuarded_example = Reach-IsGuarded one_runs one_reached

abbrev first : ℕ
first = 0

Reach-alone_example : first ≡ first
unfolding steps
Reach-alone_example = Reach-alone one_runs one_reached first first 0 0 one-IsCalm refl refl

-- The second daemon opens the file before the first removes it, and a third creates another.
abbrev removed_between : Locks
removed_between =
    close_pid_file 0 (remove_pid_file 0 0 (stat_pid_file 0 0 (open_pid_file 1 one_runs)))

abbrev two_run : Locks
two_run = lock_pid_file 2 1 (open_pid_file 2 (lock_pid_file 1 0 removed_between))

two_reached : Reach blank_locks two_run
unfolding steps
two_reached =
    step
      (step
        (step
          (step (step (step (step one_reached (opens 1 refl)) (looks 0 0 refl)) (removes 0 0 refl))
            (closes 0 0 refl))
          (locks 1 0 refl (λ e. ground arith)))
        (opens 2 refl))
      (locks 2 1 refl (λ e. ground arith))

-- Two daemons run at once.
two_locked : (two_run.phase 1 ≡ locked 0) × (two_run.phase 2 ≡ locked 1)
unfolding steps
two_locked = (refl, refl)

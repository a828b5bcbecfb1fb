-- ===== src/Process/Reaper/Rounds.antt =====
-- The rounds of `reapAll` in internal/process/reaper.go, with wait4 and the removal of the waiter as two
-- steps: between them the kernel has given up a child that still has its waiter.
use supavisor.Prelude.{ℕ, ◌≡◌, sym, subst, Option, none, some}
use supavisor.Process.Monitor.{WaitStatus}
use supavisor.Process.Reaper.Worlds.{
  Child, World, boot, forked, adopted, exited, vacated, handed, IsSound, boot-IsSound,
  forked-IsSound, adopted-IsSound, exited-IsSound, reaped-IsSound,
}

-- `taken` is what the last wait4 gave, until its waiter is removed.
pub record Daemon : Type 0 where
  pub world : World
  pub taken : Option (ℕ × WaitStatus)

abbrev pub booted : Daemon
booted = record { world = boot; taken = none }

-- The kernel gives a PID only while no process has it that is not reaped, and wait4 takes a child
-- that has exited. An orphan is a child that the daemon did not start. The lock `forking` keeps a
-- start out of a round; all else may come between its two steps.
pub data Step (g : Daemon) : Daemon → Type 0 where
  fork :
      (pid : ℕ)
      → g.taken ≡ none
      → g.world.children pid ≡ none
      → Step g (record g { world = forked pid g.world })
  adopt :
      (pid : ℕ) → g.world.children pid ≡ none → Step g (record g { world = adopted pid g.world })
  exit :
      (pid : ℕ) (child : Child) (status : WaitStatus)
      → g.world.children pid ≡ some child
      → child.exit ≡ none
      → Step g (record g { world = exited pid child status g.world })
  collect :
      (pid : ℕ) (child : Child) (status : WaitStatus)
      → g.taken ≡ none
      → g.world.children pid ≡ some child
      → child.exit ≡ some status
      → Step g (record { world = vacated pid g.world; taken = some (pid, status) })
  hand_over :
      (pid : ℕ) (status : WaitStatus)
      → g.taken ≡ some (pid, status)
      → Step g (record { world = handed pid status g.world; taken = none })

pub data Reach (g : Daemon) : Daemon → Type 0 where
  here : Reach g g
  step : {f h : Daemon} → Reach g f → Step f h → Reach g h

-- The world once the round is over.
abbrev pub after_round : Option (ℕ × WaitStatus) → World → World
after_round none w = w
after_round (some (pid, status)) w = handed pid status w

adopted-after_round :
    (taken : Option (ℕ × WaitStatus)) (pid : ℕ) (w : World)
    → w.children pid ≡ none
    → IsSound (after_round taken w)
    → IsSound (after_round taken (adopted pid w))
adopted-after_round none pid w h s = adopted-IsSound pid w h s
adopted-after_round (some (p, status)) pid w h s = adopted-IsSound pid (handed p status w) h s

exited-after_round :
    (taken : Option (ℕ × WaitStatus)) (pid : ℕ) (child : Child) (status : WaitStatus) (w : World)
    → w.children pid ≡ some child
    → child.exit ≡ none
    → IsSound (after_round taken w)
    → IsSound (after_round taken (exited pid child status w))
exited-after_round none pid child status w h x s = exited-IsSound pid child status w h x s
exited-after_round (some (p, st)) pid child status w h x s =
    exited-IsSound pid child status (handed p st w) h x s

-- Every step keeps the world sound as it is once the round is over.
Step-IsSound :
    {g h : Daemon}
    → Step g h
    → IsSound (after_round g.taken g.world)
    → IsSound (after_round h.taken h.world)
Step-IsSound {g} (fork pid idle free) s =
    subst (λ t. IsSound (after_round t (forked pid g.world))) (sym idle)
      (forked-IsSound pid g.world free (subst (λ t. IsSound (after_round t g.world)) idle s))
Step-IsSound {g} (adopt pid free) s = adopted-after_round g.taken pid g.world free s
Step-IsSound {g} (exit pid child status found x) s =
    exited-after_round g.taken pid child status g.world found x s
Step-IsSound {g} (collect pid child status idle found x) s =
    reaped-IsSound pid child status g.world found x
      (subst (λ t. IsSound (after_round t g.world)) idle s)
Step-IsSound {g} (hand_over pid status e) s = subst (λ t. IsSound (after_round t g.world)) e s

pub Reach-IsSound : {g : Daemon} → Reach booted g → IsSound (after_round g.taken g.world)
Reach-IsSound here = boot-IsSound
Reach-IsSound (step r s) = Step-IsSound s (Reach-IsSound r)

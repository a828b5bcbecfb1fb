-- ===== src/Server/Orphans/Identity.antt =====
-- Only processes of known identity are signaled (internal/server/state.go, `reapOrphans`).
use supavisor.Prelude.{ℕ, zero, suc, ◌≡◌, ◌⊎◌, Bool, true, some, List, [], ◌∷◌, All, Any}
use supavisor.Config.{sigterm, sigkill}
use supavisor.Process.Stop.{GroupSignal}
use supavisor.Server.Orphans.{ChildRecord, ProcessState, group_alive, ReapEnv}

-- The record stands at a place of the list.
abbrev pub At : List ChildRecord → ℕ → ChildRecord → Type 0
At [] place r = ⊥
At (x ∷ records) zero r = x ≡ r
At (x ∷ records) (suc place) r = At records place r

-- A poll found the group of one of the records alive.
abbrev pub SomeAlive : List ChildRecord → (ℕ → Bool) → Type 0
SomeAlive records poll = Any (λ r. group_alive poll r.pid ≡ true) records

-- The signal is the SIGTERM, or a SIGKILL after the wait: each poll had found a recorded group
-- alive, and this one still was.
abbrev pub IsDue : ReapEnv → List ChildRecord → GroupSignal → Type 0
IsDue env records sig =
    (sig.signal ≡ sigterm)
    ⊎ ((sig.signal ≡ sigkill)
        × (group_alive env.alive sig.pid ≡ true)
        × All (SomeAlive records) env.polls)

-- The state file of this very boot records the process of the signal, and when its record was
-- looked at, its start token was the recorded one.
abbrev pub IsIdentified : ReapEnv → GroupSignal → Type 0
IsIdentified env sig =
    (state : ProcessState) × (env.recorded ≡ some state)
    × (state.boot_id ≡ env.boot_id)
    × IsDue env state.children sig
    × ((place : ℕ) × (r : ChildRecord) × At state.children place r
        × (r.pid ≡ sig.pid)
        × (env.token_of place r.pid ≡ some r.start_token))

module _ (P : GroupSignal → Type 0) where
  -- `P` holds of the signal to the record's process.
  abbrev Allows : ℕ → ChildRecord → Type 0
  Allows signal r = (s : GroupSignal) → r.pid ≡ s.pid → s.signal ≡ signal → P s

  abbrev AllowsAlive : (ℕ → Bool) → ChildRecord → Type 0
  AllowsAlive alive r =
      (s : GroupSignal) → r.pid ≡ s.pid → s.signal ≡ sigkill → group_alive alive s.pid ≡ true → P s

-- ===== src/Process/Backoff.antt =====
-- The delay before a restart, in internal/process/process.go: `backoffDuration`.
-- The attempt counts from 1, and `-` on ℕ stops at 0, where the source sets the shift to 0.
pub mod Delays
use supavisor.Prelude.{
  ℕ, zero, suc, ◌+◌, ◌-◌, ◌*◌, ◌^◌, ◌≤◌, ◌<◌, min, ◌≡◌, refl, Bool, ltb, if◌then◌else◌, arith,
}
use supavisor.Config.{second}

abbrev max_backoff_seconds : ℕ
max_backoff_seconds = 30

abbrev max_backoff_shift : ℕ
max_backoff_shift = 5

unfoldable pub backoff_duration : ℕ → ℕ
backoff_duration attempt =
    let shift = attempt - 1 in
    let shift' = if ltb max_backoff_shift shift then max_backoff_shift else shift in
    min (2 ^ shift' * second) (max_backoff_seconds * second)

-- ===== src/Process/Backoff/Delays.antt =====
-- The delays before restarts grow from one second to the cap
-- (internal/process/process.go, `backoffDuration`).
use supavisor.Prelude.{ℕ, zero, suc, ◌*◌, ◌^◌, ◌≤◌, ◌≡◌, arith}
use supavisor.Config.{second}
use supavisor.Process.Backoff.{backoff_duration}

-- The delay before attempt n + 1 is 2 ^ n seconds for n up to 4 and 30 seconds from there on, so
-- the shift never overflows.
backoff_duration_lem :
    (n : ℕ)
    → (n ≤ 4 → backoff_duration (suc n) ≡ 2 ^ n * second)
      × (5 ≤ n → backoff_duration (suc n) ≡ 30 * second)
unfolding backoff_duration
backoff_duration_lem zero = ground arith
backoff_duration_lem (suc zero) = ground arith
backoff_duration_lem (suc (suc zero)) = ground arith
backoff_duration_lem (suc (suc (suc zero))) = ground arith
backoff_duration_lem (suc (suc (suc (suc zero)))) = ground arith
backoff_duration_lem (suc (suc (suc (suc (suc n))))) = ground arith

-- A later attempt never waits less, and every delay is between one second and thirty.
backoff_duration_mono :
    (n : ℕ)
    → (backoff_duration n ≤ backoff_duration (suc n))
      × (second ≤ backoff_duration n)
      × (backoff_duration n ≤ 30 * second)
unfolding backoff_duration
backoff_duration_mono zero = ground arith
backoff_duration_mono (suc zero) = ground arith
backoff_duration_mono (suc (suc zero)) = ground arith
backoff_duration_mono (suc (suc (suc zero))) = ground arith
backoff_duration_mono (suc (suc (suc (suc zero)))) = ground arith
backoff_duration_mono (suc (suc (suc (suc (suc zero))))) = ground arith
backoff_duration_mono (suc (suc (suc (suc (suc (suc n)))))) = ground arith

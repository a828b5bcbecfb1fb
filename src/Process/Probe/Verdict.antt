-- ===== src/Process/Probe/Verdict.antt =====
-- When a health check turns a program healthy or unhealthy (internal/process/health.go,
-- `probeLoop`).
use supavisor.Prelude.{
  ℕ, suc, ◌+◌, ◌≤◌, ◌<◌, ◌≡◌, refl, ◌∙◌, true, false, List, [], ◌∷◌, ◌&&◌, All, length, arith,
  if◌then◌else◌, leb, some, none, Option,
}
use supavisor.Prelude.Int.{ℤ, pos}
use supavisor.Process.{Process, Health, health_healthy, health_unhealthy, set_health}
use supavisor.Process.Probe.{ProbeLoop, Attempt, probe_attempt, apply_health, probe_loop}

abbrev IsFailure : Attempt → Type 0
IsFailure a = a.passed ≡ false

probe_loop-cons :
    (retries : ℤ) (a : Attempt) (later : List Attempt) (l : ProbeLoop) (p : Process)
    → probe_loop retries (a ∷ later) l p
      ≡ probe_loop retries later
          (probe_attempt retries a l).0
          (apply_health (probe_attempt retries a l).1 p)
unfolding probe_loop
probe_loop-cons retries a later l p = refl

health-set_health : (h : Health) (p : Process) → (set_health h p).health ≡ h
unfolding set_health
health-set_health h p = refl

-- One failure of a program that has been healthy, and the health that it leaves.
probe_attempt-failure :
    (r : ℕ) (a : Attempt) (f : ℕ)
    → IsFailure a
    → probe_attempt (pos r) a (record { ever_healthy = true; failures = f }) ≡ (
      record { ever_healthy = true; failures = f + 1 },
      if leb r (f + 1) then some health_unhealthy else none,
    )
unfolding probe_attempt
probe_attempt-failure r a f h = rw h (ground arith)

abbrev verdict : ℕ → ℕ → Option Health
verdict r f = if leb r (f + 1) then some health_unhealthy else none

verdict-health :
    (r : ℕ) (later : List Attempt) (f : ℕ) (p : Process)
    → (if leb 1 (length later) && leb r (f + 1 + length later)
        then health_unhealthy
        else (apply_health (verdict r f) p).health)
      ≡ (if leb 1 (suc (length later)) && leb r (f + suc (length later))
          then health_unhealthy
          else p.health)
unfolding set_health
verdict-health r later f p = ground arith

probe_attempt-early :
    (retries : ℤ) (a : Attempt) (f : ℕ)
    → a.passed ≡ false
    → a.grace_over ≡ false
    → probe_attempt retries a (record { ever_healthy = false; failures = f })
      ≡ (record { ever_healthy = false; failures = f + 1 }, none)
unfolding probe_attempt
probe_attempt-early retries a f h g = rw (h, g) (ground arith)

failures-health :
    (r : ℕ) (later : List Attempt) (f : ℕ) (p : Process)
    → All IsFailure later
    → (probe_loop (pos r) later (record { ever_healthy = true; failures = f }) p).health
      ≡ (if leb 1 (length later) && leb r (f + length later) then health_unhealthy else p.health)
unfolding probe_loop
failures-health r [] f p h = refl
failures-health r (a ∷ later) f p h =
    rw (probe_loop-cons, probe_attempt-failure r a f h.0)
      (failures-health r later (f + 1) (apply_health (verdict r f) p) h.1
        ∙ verdict-health r later f p)

probe_attempt-pass :
    (r : ℕ) (a : Attempt) (l : ProbeLoop)
    → a.passed ≡ true
    → probe_attempt (pos r) a l
      ≡ (record { ever_healthy = true; failures = 0 }, some health_healthy)
unfolding probe_attempt
probe_attempt-pass r a l h = rw h

-- After an attempt that passes, whatever came before it, the program is healthy until `retries`
-- attempts in a row have failed, and unhealthy from then on while they fail, where `retries` is at
-- least one.
pub probe_loop-after_pass :
    (retries : ℕ) (a : Attempt) (later : List Attempt) (l : ProbeLoop) (p : Process)
    → 1 ≤ retries
    → a.passed ≡ true
    → All IsFailure later
    → (length later < retries → (probe_loop (pos retries) (a ∷ later) l p).health ≡ health_healthy)
      × (retries ≤ length later
          → (probe_loop (pos retries) (a ∷ later) l p).health ≡ health_unhealthy)
unfolding probe_loop
probe_loop-after_pass r a later l p one pass fail =
    let e = failures-health r later 0 (set_health health_healthy p) fail in
    let healthy = health-set_health health_healthy p in
    rw (probe_loop-cons, probe_attempt-pass r a l pass)
      (λ few. e ∙ ground arith, λ many. e ∙ ground arith)

-- While a program has never been healthy and its start period lasts, failing attempts report
-- nothing: they leave the process as it was.
probe_loop-start_period :
    (retries : ℤ) (attempts : List Attempt) (f : ℕ) (p : Process)
    → All (λ a. (a.passed ≡ false) × (a.grace_over ≡ false)) attempts
    → probe_loop retries attempts (record { ever_healthy = false; failures = f }) p ≡ p
unfolding probe_loop
probe_loop-start_period retries [] f p h = refl
probe_loop-start_period retries (a ∷ later) f p h =
    rw (probe_loop-cons, probe_attempt-early retries a f h.0.0 h.0.1)
      (probe_loop-start_period retries later (f + 1) p h.1)

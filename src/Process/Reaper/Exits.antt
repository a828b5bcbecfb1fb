-- ===== src/Process/Reaper/Exits.antt =====
-- What `reapAll` and `signalGroupIfUnreaped` of internal/process/reaper.go do to the children.
use supavisor.Prelude.{
  ℕ, zero, suc, ◌<◌, ◌≤◌, ◌≡◌, ◌≢◌, ◌↔◌, ◌⊎◌, inl, inr, refl, sym, ap, ◌∙◌, Option, none, some,
  List, [], ◌∷◌, if◌then◌else◌, arith,
}
use supavisor.Process.Stop.{GroupSignal, signal_group}
use supavisor.Process.Monitor.{WaitStatus}
use supavisor.Process.Reaper.{set, dispatch, sent, reap_all, is_waiting, signal_group_if_unreaped}
use supavisor.Process.Reaper.Worlds.{
  Child, World, reaped, record_status, IsSound, reaped-IsSound, channel_of, exit_of,
}
use supavisor.Process.Reaper.Rounds.{Daemon, booted, Reach, after_round, Reach-IsSound}

-- What wait4 answers to the loop of `reapAll`, and the world behind it.
pub data Drain (v : World) : World → List (ℕ × WaitStatus) → Type 0 where
  over : Drain v v []
  more :
      {w : World} {answers : List (ℕ × WaitStatus)} (pid : ℕ) (child : Child) (status : WaitStatus)
      → w.children pid ≡ some child
      → child.exit ≡ some status
      → Drain v (reaped pid status w) answers
      → Drain v w ((pid, status) ∷ answers)

-- The channels behind the statuses that are sent.
abbrev pub deliver : List (ℕ × WaitStatus) → (ℕ → Option WaitStatus) → ℕ → Option WaitStatus
deliver [] held = held
deliver ((c, status) ∷ later) held = deliver later (set c (some status) held)

deliver-sent :
    (o : Option ℕ) (status : WaitStatus) (later : List (ℕ × WaitStatus))
    (held : ℕ → Option WaitStatus)
    → deliver (sent o status later) held ≡ deliver later (record_status o status held)
deliver-sent none status later held = refl
deliver-sent (some c) status later held = refl

Drain-delivered :
    {v w : World} {answers : List (ℕ × WaitStatus)}
    → Drain v w answers
    → deliver (reap_all answers w.waiters).1 w.delivered ≡ v.delivered
unfolding reap_all dispatch
Drain-delivered over = refl
Drain-delivered {v} {w} (more {answers = answers} pid child status h x d) =
    deliver-sent (w.waiters pid) status (reap_all answers (dispatch pid w.waiters).0).1 w.delivered
    ∙ Drain-delivered d

Drain-IsSound :
    {v w : World} {answers : List (ℕ × WaitStatus)} → IsSound w → Drain v w answers → IsSound v
Drain-IsSound s over = s
Drain-IsSound {v} {w} s (more pid child status h x d) =
    Drain-IsSound (reaped-IsSound pid child status w h x s) d

IsSound-exits :
    (v : World)
    → IsSound v
    → ((pid : ℕ) → exit_of (v.children pid) ≡ none)
    → (c : ℕ) (status : WaitStatus) → v.exits c ≡ some status
    → v.delivered c ≡ some status
IsSound-exits v s idle c status h = elim (below c v.next) [
  | inr le ↦ cc (sym (s.unused c le).1 ∙ h)
  | inl lt ↦ elim (s.live c lt) [
    | inl (st, e) ↦ e ∙ (sym (s.truthful c st e) ∙ h)
    | inr (pid, e) ↦ cc (sym (s.exact pid c e ∙ idle pid) ∙ h)
  ]
]
  where
    below : (c n : ℕ) → (c < n) ⊎ (n ≤ c)
    below c n = ground arith

-- Once `reapAll` has collected all that had exited, whatever forks, orphans and exits came before, the
-- channel of each child that the daemon started holds the status with which that child exited, and
-- no other channel holds anything.
pub reap_all_lem :
    {v w : World} {answers : List (ℕ × WaitStatus)}
    → Reach booted (record { world = w; taken = none })
    → Drain v w answers
    → ((pid : ℕ) → exit_of (v.children pid) ≡ none)
    → (c : ℕ) (status : WaitStatus)
    → (deliver (reap_all answers w.waiters).1 w.delivered c ≡ some status)
      ↔ (v.exits c ≡ some status)
reap_all_lem {v} {w} r d idle c status =
    let s = Drain-IsSound (Reach-IsSound r) d in
    let same = ap (λ f. f c) (Drain-delivered d) in
    (λ h. s.truthful c status (sym same ∙ h), λ h. same ∙ IsSound-exits v s idle c status h)

-- What the table says of a PID, in the middle of a round as well.
waiter-cases :
    (taken : Option (ℕ × WaitStatus)) (w : World) (pid c : ℕ)
    → IsSound (after_round taken w)
    → w.waiters pid ≡ some c
    → (channel_of (w.children pid) ≡ some c)
      ⊎ ((status : WaitStatus) × (taken ≡ some (pid, status))
          × (channel_of (w.children pid) ≡ none))
unfolding dispatch
waiter-cases none w pid c s e = inl (sym (s.table pid) ∙ e)
waiter-cases (some (p, status)) w pid c s e = elim (eq_or_ne pid p) [
  | inl same ↦ inr (status, ground (arith, same), sym (s.table pid) ∙ ground (arith, same))
  | inr other ↦ inl (sym (s.table pid) ∙ ground (arith, other, e))
]
  where
    eq_or_ne : (a b : ℕ) → (a ≡ b) ⊎ (a ≢ b)
    eq_or_ne a b = ground arith

abbrev pub to_group : ℕ → ℕ → List GroupSignal
to_group pid signal = record { pid = pid; signal = signal } ∷ []

-- A group is only signaled while its leader is a child that the daemon started and has not reaped,
-- or in the middle of a round, when wait4 has taken its leader and the waiter is not removed yet; then
-- no child that the daemon started has the PID. The signal goes to the group of that PID.
pub signal_group_if_unreaped_lem :
    {g : Daemon}
    → Reach booted g
    → (pid signal : ℕ)
    → let sent = signal_group_if_unreaped pid signal g.world.waiters in
      let group = to_group pid signal in
      (sent ≡ [])
      ⊎ ((c : ℕ) × (sent ≡ group) × (channel_of (g.world.children pid) ≡ some c))
      ⊎ ((status : WaitStatus) × (sent ≡ group)
          × (g.taken ≡ some (pid, status))
          × (channel_of (g.world.children pid) ≡ none))
unfolding signal_group_if_unreaped signal_group
signal_group_if_unreaped_lem r zero signal = inl refl
signal_group_if_unreaped_lem {g} r (suc pid) signal = by_waiter (g.world.waiters (suc pid)) refl
  where
    by_waiter :
        (o : Option ℕ)
        → g.world.waiters (suc pid) ≡ o
        → let sent = if is_waiting o then signal_group (suc pid) signal else [] in
          let group = to_group (suc pid) signal in
          (sent ≡ [])
          ⊎ ((c : ℕ) × (sent ≡ group) × (channel_of (g.world.children (suc pid)) ≡ some c))
          ⊎ ((status : WaitStatus) × (sent ≡ group)
              × (g.taken ≡ some (suc pid, status))
              × (channel_of (g.world.children (suc pid)) ≡ none))
    by_waiter none e = inl refl
    by_waiter (some c) e = elim (waiter-cases g.taken g.world (suc pid) c (Reach-IsSound r) e) [
      | inl child ↦ inr (inl (c, refl, child))
      | inr (status, taken, gone) ↦ inr (inr (status, refl, taken, gone))
    ]

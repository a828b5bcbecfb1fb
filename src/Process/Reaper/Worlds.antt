-- ===== src/Process/Reaper/Worlds.antt =====
-- The table of internal/process/reaper.go beside the processes that the kernel keeps for it, and
-- what is sound between two rounds of `reapAll`.
use supavisor.Prelude.{
  ℕ, suc, ◌<◌, ◌≤◌, ◌≡◌, ◌≢◌, ◌⊎◌, inl, inr, refl, sym, ap, ◌∙◌, Option, none, some, arith,
}
use supavisor.Process.Monitor.{WaitStatus}
use supavisor.Process.Reaper.{set, Waiters, spawn, dispatch}

-- A process whose parent is the daemon, until it is reaped: the channel of its start, if the daemon
-- started it, and its status once it has exited.
pub record Child : Type 0 where
  pub channel : Option ℕ
  pub exit : Option WaitStatus

-- `exits` and `delivered` have the status of the child of a channel, and what was sent there.
-- Channels are numbered in the order of the starts, up to `next`.
pub record World : Type 0 where
  pub children : ℕ → Option Child
  pub waiters : Waiters
  pub exits : ℕ → Option WaitStatus
  pub delivered : ℕ → Option WaitStatus
  pub next : ℕ

abbrev pub boot : World
boot = record {
  children = λ pid. none;
  waiters = λ pid. none;
  exits = λ c. none;
  delivered = λ c. none;
  next = 0;
}

abbrev pub record_status : Option ℕ → WaitStatus → (ℕ → Option WaitStatus) → ℕ → Option WaitStatus
record_status none status seen = seen
record_status (some c) status seen = set c (some status) seen

abbrev pub forked : ℕ → World → World
forked pid w = record w {
  children = set pid (some (record { channel = some w.next; exit = none })) w.children;
  waiters = (spawn (some pid) w.next w.waiters).0;
  next = suc w.next;
}

abbrev pub adopted : ℕ → World → World
adopted pid w = record w {
  children = set pid (some (record { channel = none; exit = none })) w.children;
}

abbrev pub exited : ℕ → Child → WaitStatus → World → World
exited pid child status w = record w {
  children = set pid (some (record child { exit = some status })) w.children;
  exits = record_status child.channel status w.exits;
}

-- The kernel gives up the child.
abbrev pub vacated : ℕ → World → World
vacated pid w = record w { children = set pid none w.children }

-- A round of `reapAll` behind its wait4.
abbrev pub handed : ℕ → WaitStatus → World → World
handed pid status w =
    let out = dispatch pid w.waiters in
    record w { waiters = out.0; delivered = record_status out.1 status w.delivered }

-- A whole round.
abbrev pub reaped : ℕ → WaitStatus → World → World
reaped pid status w = handed pid status (vacated pid w)

abbrev pub channel_of : Option Child → Option ℕ
channel_of none = none
channel_of (some child) = child.channel

abbrev pub exit_of : Option Child → Option WaitStatus
exit_of none = none
exit_of (some child) = child.exit

-- The table has exactly the children that the daemon started and that are not reaped, and each
-- channel gets the status of its own child, once.
pub record IsSound (w : World) : Type 0 where
  pub table : (pid : ℕ) → w.waiters pid ≡ channel_of (w.children pid)
  pub fresh : (pid c : ℕ) → channel_of (w.children pid) ≡ some c → c < w.next
  pub unused : (c : ℕ) → w.next ≤ c → (w.delivered c ≡ none) × (w.exits c ≡ none)
  pub own :
      (p q c : ℕ) → channel_of (w.children p) ≡ some c → channel_of (w.children q) ≡ some c → p ≡ q
  pub exact :
      (pid c : ℕ) → channel_of (w.children pid) ≡ some c → w.exits c ≡ exit_of (w.children pid)
  pub pending : (pid c : ℕ) → channel_of (w.children pid) ≡ some c → w.delivered c ≡ none
  pub truthful :
      (c : ℕ) (status : WaitStatus) → w.delivered c ≡ some status → w.exits c ≡ some status
  pub live :
      (c : ℕ)
      → c < w.next
      → ((status : WaitStatus) × (w.delivered c ≡ some status))
        ⊎ ((pid : ℕ) × (channel_of (w.children pid) ≡ some c))

lt_or_eq : (c n : ℕ) → c < suc n → (c < n) ⊎ (c ≡ n)
lt_or_eq c n h = ground arith

pub boot-IsSound : IsSound boot
boot-IsSound = record {
  table = λ pid. refl;
  fresh = λ pid c h. cc;
  unused = λ c h. (refl, refl);
  own = λ p q c h k. cc;
  exact = λ pid c h. cc;
  pending = λ pid c h. cc;
  truthful = λ c status h. cc;
  live = λ c h. absurd (omega (arith, h));
}

pub adopted-IsSound :
    (pid : ℕ) (w : World) → w.children pid ≡ none → IsSound w → IsSound (adopted pid w)
adopted-IsSound pid w h s = record {
  table = λ p. ground (arith, s.table p, h);
  fresh = λ p c e. ground (arith, s.fresh p c, e);
  unused = s.unused;
  own = λ p q c e f. ground (arith, s.own p q c, e, f);
  exact = λ p c e. ground (arith, s.exact p c, e);
  pending = λ p c e. ground (arith, s.pending p c, e);
  truthful = s.truthful;
  live = λ c lt. elim (s.live c lt) [
    | inl sent ↦ inl sent
    | inr (p, e) ↦ inr (p, ground (arith, h, e))
  ];
}

pub forked-IsSound :
    (pid : ℕ) (w : World) → w.children pid ≡ none → IsSound w → IsSound (forked pid w)
unfolding spawn
forked-IsSound pid w h s = record {
  table = λ p. ground (arith, s.table p);
  fresh = λ p c e. ground (arith, s.fresh p c, e);
  unused = λ c le. s.unused c (omega (arith, le));
  own = λ p q c e f. ground (arith, s.own p q c, s.fresh p c, s.fresh q c, e, f);
  exact = λ p c e. ground (arith, s.exact p c, s.unused c, e);
  pending = λ p c e. ground (arith, s.pending p c, s.unused c, e);
  truthful = s.truthful;
  live = λ c lt. elim (lt_or_eq c w.next lt) [
    | inl less ↦ elim (s.live c less) [
      | inl sent ↦ inl sent
      | inr (p, e) ↦ inr (p, ground (arith, h, e))
    ]
    | inr e ↦ inr (pid, ground (arith, e))
  ];
}

-- What a channel has after a status was recorded.
record_status-same :
    (o : Option ℕ) (status : WaitStatus) (seen : ℕ → Option WaitStatus) (c : ℕ)
    → o ≡ some c
    → record_status o status seen c ≡ some status
record_status-same none status seen c h = cc
record_status-same (some d) status seen c h = ground arith

record_status-other :
    (o : Option ℕ) (status : WaitStatus) (seen : ℕ → Option WaitStatus) (c : ℕ)
    → o ≢ some c
    → record_status o status seen c ≡ seen c
record_status-other none status seen c h = refl
record_status-other (some d) status seen c h = ground arith

channel-cases : (o : Option ℕ) (c : ℕ) → (o ≡ some c) ⊎ (o ≢ some c)
channel-cases none c = inr (λ e. cc)
channel-cases (some d) c = ground arith

pub exited-IsSound :
    (pid : ℕ) (child : Child) (status : WaitStatus) (w : World)
    → w.children pid ≡ some child
    → child.exit ≡ none
    → IsSound w
    → IsSound (exited pid child status w)
exited-IsSound pid child status w h x s = record {
  table = λ p. ground (arith, s.table p, h);
  fresh = λ p c e. ground (arith, s.fresh p c, h, e);
  unused = λ c le. (
    (s.unused c le).0,
    record_status-other child.channel status w.exits c
          (λ e. omega (arith, s.fresh pid c (ap channel_of h ∙ e), le))
        ∙ (s.unused c le).1,
  );
  own = λ p q c e f. ground (arith, s.own p q c, h, e, f);
  exact = λ p c e. ground (
    arith,
    h,
    e,
    s.exact p c,
    s.own p pid c,
    record_status-same child.channel status w.exits c,
    record_status-other child.channel status w.exits c,
  );
  pending = λ p c e. ground (arith, s.pending p c, h, e);
  truthful = λ c st e.
      record_status-other child.channel status w.exits c
        (λ f. cc (sym (s.pending pid c (ap channel_of h ∙ f)) ∙ e))
      ∙ s.truthful c st e;
  live = λ c lt. elim (s.live c lt) [
    | inl sent ↦ inl sent
    | inr (p, e) ↦ inr (p, ground (arith, h, e))
  ];
}

pub reaped-IsSound :
    (pid : ℕ) (child : Child) (status : WaitStatus) (w : World)
    → w.children pid ≡ some child
    → child.exit ≡ some status
    → IsSound w
    → IsSound (reaped pid status w)
unfolding dispatch
reaped-IsSound pid child status w h x s = record {
  table = λ p. ground (arith, s.table p);
  fresh = λ p c e. ground (arith, s.fresh p c, e);
  unused = λ c le. (
    record_status-other (w.waiters pid) status w.delivered c
          (λ e. omega (arith, s.fresh pid c (sym (s.table pid) ∙ e), le))
        ∙ (s.unused c le).0,
    (s.unused c le).1,
  );
  own = λ p q c e f. ground (arith, s.own p q c, e, f);
  exact = λ p c e. ground (arith, s.exact p c, e);
  pending = λ p c e. ground (
    arith,
    e,
    s.pending p c,
    s.own p pid c,
    s.table pid,
    record_status-other (w.waiters pid) status w.delivered c,
  );
  truthful = λ c st e. elim (channel-cases (w.waiters pid) c) [
    | inl mine ↦
        s.exact pid c (sym (s.table pid) ∙ mine)
        ∙ (ap exit_of h
            ∙ (x ∙ (sym (record_status-same (w.waiters pid) status w.delivered c mine) ∙ e)))
    | inr other ↦
        s.truthful c st (sym (record_status-other (w.waiters pid) status w.delivered c other) ∙ e)
  ];
  live = λ c lt. elim (channel-cases (w.waiters pid) c) [
    | inl mine ↦ inl (status, record_status-same (w.waiters pid) status w.delivered c mine)
    | inr other ↦ elim (s.live c lt) [
      | inl (st, e) ↦ inl (st, record_status-other (w.waiters pid) status w.delivered c other ∙ e)
      | inr (p, e) ↦ inr (p, ground (arith, s.table pid, other, e))
    ]
  ];
}

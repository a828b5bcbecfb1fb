-- ===== src/Server/Requests/Waits.antt =====
-- What the wait of a request reports (internal/server/reconcile.go, `awaitState`).
use supavisor.Prelude.{
  ◌≡◌, refl, ◌∙◌, sym, ap, subst, inl, inr, Bool, true, false, Option, none, some, List, [], ◌∷◌,
  Any, Str, arith, Bool-cases,
}
use supavisor.Process.{Process}
use supavisor.Server.{Server, Reason, wants_to_run, dependencies_satisfied}
use supavisor.Server.Blocking.{BlockReason, blocked_indefinitely}
use supavisor.Server.Blocking.Chains.{IsBlocked}
use supavisor.Server.Blocking.Answer.{IsTruthful, blocked_indefinitely_lem}
use supavisor.Server.Requests.{
  RequestError, shutting_down, cannot_start, never_ran, timed_out, unknown_process, already_running,
  reason_of, await_timeout_error, end_round, RoundEnd, ticked, stop_chan_closed, deadline_passed,
  Poll, given_up, await_state,
}

given_up-eq-some :
    (s : Server) (name : Str) (r : BlockReason)
    → given_up s name ≡ some r
    → (wants_to_run s name ≡ true) × (reason_of (blocked_indefinitely s name) ≡ some r)
unfolding given_up
given_up-eq-some s name r h = ground arith

given_up-IsBlocked :
    (s : Server) (name : Str) (r : BlockReason)
    → given_up s name ≡ some r
    → (wants_to_run s name ≡ true) × IsBlocked s name r
given_up-IsBlocked s name r h =
    let (wanted, found) = given_up-eq-some s name r h in
    let (seen, (answer, e, truthful)) = blocked_indefinitely_lem s name in
    (wanted, subst (IsTruthful s name) (sym (ap reason_of e) ∙ found) truthful)

-- What a report says of the polls.
abbrev pub Explains : (Process → Bool) → Str → List Poll → Option RequestError → Type 0
Explains done name polls none = Any (λ poll. done poll.process ≡ true) polls
Explains done name polls (some (cannot_start n r)) =
    Any (λ poll. (wants_to_run poll.server name ≡ true) × IsBlocked poll.server name r) polls
Explains done name polls (some (timed_out n state)) =
    Any
      (λ poll.
        (s : Server) × ((p : Process) × (poll.ended ≡ deadline_passed s p) × (p.state ≡ state)))
      polls
Explains done name polls (some shutting_down) = Any (λ poll. poll.ended ≡ stop_chan_closed) polls
Explains done name polls (some (never_ran n r)) =
    Any
      (λ poll.
        (s : Server) × ((p : Process) × (poll.ended ≡ deadline_passed s p)
          × (dependencies_satisfied s name ≡ some r)))
      polls
Explains done name polls (some (unknown_process n)) = ⊥
Explains done name polls (some (already_running n)) = ⊥

Explains-later :
    (done : Process → Bool) (name : Str) (poll : Poll) (polls : List Poll) (e : Option RequestError)
    → Explains done name polls e
    → Explains done name (poll ∷ polls) e
Explains-later done name poll polls none h = inr h
Explains-later done name poll polls (some (cannot_start n r)) h = inr h
Explains-later done name poll polls (some (timed_out n state)) h = inr h
Explains-later done name poll polls (some shutting_down) h = inr h
Explains-later done name poll polls (some (never_ran n r)) h = inr h
Explains-later done name poll polls (some (unknown_process n)) h = absurd h
Explains-later done name poll polls (some (already_running n)) h = absurd h

timeout-Explains :
    (done : Process → Bool) (name : Str) (poll : Poll) (polls : List Poll) (s : Server)
    (p : Process) (o : Option Reason)
    → poll.ended ≡ deadline_passed s p
    → dependencies_satisfied s name ≡ o
    → Explains done name (poll ∷ polls) (some (await_timeout_error name p.state o))
timeout-Explains done name poll polls s p none e d = inl (s, (p, e, refl))
timeout-Explains done name poll polls s p (some r) e d = inl (s, (p, e, d))

-- A wait that goes on has no report.
abbrev Reports : (Process → Bool) → Str → List Poll → Option (Option RequestError) → Type 0
Reports done name polls none = Unit
Reports done name polls (some e) = Explains done name polls e

Reports-later :
    (done : Process → Bool) (name : Str) (poll : Poll) (polls : List Poll)
    (o : Option (Option RequestError))
    → Reports done name polls o
    → Reports done name (poll ∷ polls) o
Reports-later done name poll polls none h = tt
Reports-later done name poll polls (some e) h = Explains-later done name poll polls e h

end_round-Reports :
    (done : Process → Bool) (name : Str) (poll : Poll) (polls : List Poll) (ended : RoundEnd)
    (o : Option (Option RequestError))
    → poll.ended ≡ ended
    → Reports done name polls o
    → Reports done name (poll ∷ polls) (end_round name ended o)
end_round-Reports done name poll polls ticked o e h = Reports-later done name poll polls o h
end_round-Reports done name poll polls stop_chan_closed o e h = inl e
end_round-Reports done name poll polls (deadline_passed s p) o e h =
    timeout-Explains done name poll polls s p (dependencies_satisfied s name) e refl

await_state-done :
    (done : Process → Bool) (name : Str) (poll : Poll) (polls : List Poll)
    → done poll.process ≡ true
    → await_state done name (poll ∷ polls) ≡ some none
unfolding await_state
await_state-done done name poll polls h = rw h refl

await_state-given_up :
    (done : Process → Bool) (name : Str) (poll : Poll) (polls : List Poll) (r : BlockReason)
    → done poll.process ≡ false
    → given_up poll.server name ≡ some r
    → await_state done name (poll ∷ polls) ≡ some (some (cannot_start name r))
unfolding await_state
await_state-given_up done name poll polls r h g = rw h (rw g refl)

await_state-waits :
    (done : Process → Bool) (name : Str) (poll : Poll) (polls : List Poll)
    → done poll.process ≡ false
    → given_up poll.server name ≡ none
    → await_state done name (poll ∷ polls) ≡ end_round name poll.ended (await_state done name polls)
unfolding await_state
await_state-waits done name poll polls h g = rw h (rw g refl)

by_given_up :
    (done : Process → Bool) (name : Str) (poll : Poll) (polls : List Poll) (o : Option BlockReason)
    → done poll.process ≡ false
    → given_up poll.server name ≡ o
    → Reports done name polls (await_state done name polls)
    → Reports done name (poll ∷ polls) (await_state done name (poll ∷ polls))
by_given_up done name poll polls (some r) h g rest =
    rw (await_state-given_up done name poll polls r h g)
      (inl (given_up-IsBlocked poll.server name r g))
by_given_up done name poll polls none h g rest =
    rw (await_state-waits done name poll polls h g)
      (end_round-Reports done name poll polls poll.ended (await_state done name polls) refl rest)

await_state-nil : (done : Process → Bool) (name : Str) → await_state done name [] ≡ none
unfolding await_state
await_state-nil done name = refl

await_state-Reports :
    (done : Process → Bool) (name : Str) (polls : List Poll)
    → Reports done name polls (await_state done name polls)
await_state-Reports done name [] = rw (await_state-nil done name) tt
await_state-Reports done name (poll ∷ polls) = elim (Bool-cases (done poll.process)) [
  | inl h ↦ rw (await_state-done done name poll polls h) (inl h)
  | inr h ↦
      by_given_up done name poll polls (given_up poll.server name) h refl
        (await_state-Reports done name polls)
]

-- A wait reports only what a poll found: success, that the process was as awaited; that it cannot
-- start, that it was wanted then and that a chain of dependencies ends at the reason given; the
-- shutdown, that the daemon was stopping; and the others, that the deadline passed with the process
-- in that state, or with that dependency not satisfied.
pub await_state_lem :
    (done : Process → Bool) (name : Str) (polls : List Poll) (e : Option RequestError)
    → await_state done name polls ≡ some e
    → Explains done name polls e
await_state_lem done name polls e h =
    subst (Reports done name polls) h (await_state-Reports done name polls)

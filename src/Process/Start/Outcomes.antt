-- ===== src/Process/Start/Outcomes.antt =====
-- What `Start` leaves behind, on each of its branches (internal/process/process.go).
use supavisor.Prelude.{
  ℕ, ◌+◌, ◌≡◌, ◌≢◌, ap, ◌||◌, ◌⊎◌, inl, inr, ◌↔◌, Bool, true, false, Option, none, some, List, [],
  ◌∷◌, Str, arith, Bool-cases,
}
use supavisor.Process.{Process, starting, running, fatal, state_eq}
use supavisor.Process.Command.{parse_command}
use supavisor.Process.Logging.{start_logging, close_child_ends}
use supavisor.Process.Probe.{start_health_checks, begin_probing}
use supavisor.Process.Start.{
  StartEnv, StartError, already_running, Started, start_failed, record_run, launch,
  build_and_launch, after_logging, begin_start, start,
}

abbrev pub IsBusy : Process → Type 0
IsBusy p = (p.state ≡ running) ⊎ (p.state ≡ starting)

-- What log capture and health checks leave alone.
pub record Keeps (p q : Process) : Type 0 where
  pub config : q.config ≡ p.config
  pub state : q.state ≡ p.state
  pub completed : q.completed ≡ p.completed
  pub starts : q.starts ≡ p.starts
  pub cancel : q.cancel ≡ p.cancel
  pub canceled : q.canceled ≡ p.canceled
  pub restart_count : q.restart_count ≡ p.restart_count
  pub stopped_externally : q.stopped_externally ≡ p.stopped_externally

start_logging-Keeps : (can_open : Str → Bool) (p : Process) → Keeps p (start_logging can_open p).0
unfolding start_logging
start_logging-Keeps can_open p = ground arith

begin_probing-Keeps : (kind : Option _) (run : ℕ) (p : Process) → Keeps p (begin_probing kind run p)
unfolding begin_probing
begin_probing-Keeps none run p = ground arith
begin_probing-Keeps (some k) run p = ground arith

start_health_checks-Keeps : (run : ℕ) (p : Process) → Keeps p (start_health_checks run p)
unfolding start_health_checks
start_health_checks-Keeps run p = grind (arith, begin_probing-Keeps)

-- What a call of `Start` that is not refused leaves behind: `q` and the error, if any.
pub record Outcome (p q : Process) (e : Option StartError) : Type 0 where
  pub config : q.config ≡ p.config
  pub forgotten : q.completed ≡ false
  pub fresh : q.cancel ≡ some p.starts
  pub counted : q.starts ≡ p.starts + 1
  pub restarts_kept : q.restart_count ≡ p.restart_count
  pub ok_state : e ≡ none → q.state ≡ starting
  pub ok_wanted : e ≡ none → q.stopped_externally ≡ false
  pub err_state : e ≢ none → q.state ≡ fatal
  pub err_streams : e ≢ none → q.streams ≡ []
  pub own_error : e ≢ some already_running

start_failed-Outcome :
    {p q : Process} (x : StartError)
    → x ≢ already_running
    → Keeps (begin_start p) q
    → Outcome p (start_failed p.starts x q).0 (start_failed p.starts x q).1
unfolding start_failed begin_start
start_failed-Outcome x other k = ground arith

launch-Outcome :
    (env : StartEnv) (child : Option ℕ) {p q : Process}
    → Keeps (begin_start p) q
    → Outcome p (launch env p.starts child q).0 (launch env p.starts child q).1
unfolding launch begin_start
launch-Outcome env none k = ground arith
launch-Outcome env (some pid) {p} {q} k = ground (
  arith,
  start_health_checks-Keeps p.starts (record_run p.starts pid env.now (close_child_ends q)),
)

after_logging-Outcome :
    (env : StartEnv) (opened : Bool) {p q : Process}
    → Keeps (begin_start p) q
    → Outcome p
        (after_logging env p.starts (q, opened)).0
        (after_logging env p.starts (q, opened)).1
unfolding after_logging
after_logging-Outcome env false k = start_failed-Outcome _ (λ e. cc) k
after_logging-Outcome env true {p} {q} k = by_args (parse_command q.config.command)
  where
    by_args :
        (args : List Str)
        → Outcome p
            (build_and_launch env p.starts args q).0
            (build_and_launch env p.starts args q).1
    by_args [] = start_failed-Outcome _ (λ e. cc) k
    by_args (name ∷ args) = launch-Outcome env env.child k

-- Every `Start` of a process that is neither running nor starting forgets the last run's completion
-- and takes a fresh context; it ends STARTING and wanted on success, and FATAL with the log streams
-- closed on every error.
pub start-Outcome :
    (env : StartEnv) (p : Process) → ¬ IsBusy p → Outcome p (start env p).0 (start env p).1
unfolding start
start-Outcome env p idle =
    elim (Bool-cases (state_eq p.state running || state_eq p.state starting)) [
      | inl busy ↦ absurd (idle (ground arith))
      | inr free ↦
          let logged = start_logging env.can_open (begin_start p) in
          rw free
            (after_logging-Outcome env logged.1 (start_logging-Keeps env.can_open (begin_start p)))
    ]

pub busy-refused :
    (env : StartEnv) (p : Process) → IsBusy p → start env p ≡ (p, some already_running)
unfolding start
busy-refused env p busy =
    elim (Bool-cases (state_eq p.state running || state_eq p.state starting)) [
      | inl yes' ↦ rw yes'
      | inr no' ↦ absurd (ground arith)
    ]

pub IsBusy-dec : (p : Process) → IsBusy p ⊎ ¬ IsBusy p
IsBusy-dec p = elim (Bool-cases (state_eq p.state running || state_eq p.state starting)) [
  | inl b ↦ inl (ground arith)
  | inr b ↦ inr (λ h. ground arith)
]

-- `Start` reports that the process is running or starting exactly when it is, and then changes
-- nothing.
start_refused_iff :
    (env : StartEnv) (p : Process)
    → ((start env p).1 ≡ some already_running ↔ IsBusy p) × (IsBusy p → (start env p).0 ≡ p)
start_refused_iff env p = (
  (
    λ e. elim (IsBusy-dec p) [
      | inl busy ↦ busy
      | inr idle ↦ absurd ((start-Outcome env p idle).own_error e)
    ],
    λ busy. ap (λ (r : Started). r.1) (busy-refused env p busy),
  ),
  λ busy. ap (λ (r : Started). r.0) (busy-refused env p busy),
)

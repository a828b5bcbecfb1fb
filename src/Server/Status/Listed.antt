-- ===== src/Server/Status/Listed.antt =====
-- What `GetStatus` of internal/server/server.go lists.
use supavisor.Prelude.{
  ℕ, zero, suc, ◌-◌, ◌≡◌, ◌≢◌, refl, ◌∙◌, true, Option, none, some, List, [], ◌∷◌, if◌then◌else◌,
  Str, str_eq, str_eq_iff, str_le, str_le_total, Dict, lookup, IsMap, arith,
}
use supavisor.Prelude.Int.{ℤ, pos, negsuc}
use supavisor.Config.{
  ProgramConfig, RestartPolicy, restart_never, restart_unexpected, restart_always,
}
use supavisor.Process.{Process, running, exited, fatal}
use supavisor.Server.{
  Server, Reason, no_reason, blocked_by, gave_up_after, exited_under_never, exited_cleanly,
  exited_with_status, not_running_reason, exited_reason, autorestart_policy,
}
use supavisor.Server.Status.{
  ProcessStatusInfo, process_status, statuses, insert_status, sort_statuses, get_status,
  select_process,
}

-- The names come in order.
abbrev pub IsSorted : List ProcessStatusInfo → Type 0
IsSorted [] = Unit
IsSorted (x ∷ []) = Unit
IsSorted (x ∷ y ∷ ys) = (str_le x.name y.name ≡ true) × IsSorted (y ∷ ys)

insert_status-IsSorted :
    (x : ProcessStatusInfo) (xs : List ProcessStatusInfo)
    → IsSorted xs
    → IsSorted (insert_status x xs)
unfolding insert_status
insert_status-IsSorted x [] h = tt
insert_status-IsSorted x (y ∷ []) h = ground (arith, str_le_total x.name y.name)
insert_status-IsSorted x (y ∷ z ∷ zs) h = ground (
  arith,
  str_le_total x.name y.name,
  insert_status-IsSorted x (z ∷ zs),
  str_le_total x.name z.name,
)

sort_statuses-IsSorted : (xs : List ProcessStatusInfo) → IsSorted (sort_statuses xs)
unfolding sort_statuses
sort_statuses-IsSorted [] = tt
sort_statuses-IsSorted (x ∷ xs) =
    insert_status-IsSorted x (sort_statuses xs) (sort_statuses-IsSorted xs)

select_process-insert_status :
    (x : ProcessStatusInfo) (xs : List ProcessStatusInfo) (name : Str)
    → select_process xs x.name ≡ []
    → select_process (insert_status x xs) name
      ≡ (if str_eq x.name name then x ∷ [] else select_process xs name)
unfolding select_process insert_status
select_process-insert_status x [] name h = refl
select_process-insert_status x (y ∷ ys) name h = ground (
  arith,
  select_process-insert_status x ys name,
  str_eq_iff x.name name,
  str_eq_iff y.name name,
  str_eq_iff y.name x.name,
)

-- What the status says of a program, by its process and what the server holds under its name.
pub record IsStatusOf (now : ℕ) (s : Server) (name : Str) (p : Process) (status : ProcessStatusInfo)
    : Type 0 where
  named : status.name ≡ name
  state : status.state ≡ p.state
  desired : status.desired ≡ lookup name s.desired
  health : status.health ≡ p.health
  pid : status.pid ≡ p.pid
  exit_code : status.exit_code ≡ p.exit_code
  restart_count : status.restart_count ≡ p.restart_count
  up : p.state ≡ running → status.uptime ≡ some (now - p.start_time)
  down : p.state ≢ running → status.uptime ≡ none
  blocked :
      (reason : Reason)
      → lookup name s.blocked_reason ≡ some reason
      → status.reason ≡ blocked_by reason
  gave_up :
      lookup name s.blocked_reason ≡ none
      → p.state ≡ fatal
      → status.reason ≡ gave_up_after p.restart_count
  left_alone :
      (prog : ProgramConfig)
      → lookup name s.blocked_reason ≡ none
      → p.state ≡ exited
      → lookup name s.config.programs ≡ some prog
      → prog.autorestart ≡ restart_never
      → status.reason ≡ exited_under_never p.exit_code
  done :
      (prog : ProgramConfig)
      → lookup name s.blocked_reason ≡ none
      → p.state ≡ exited
      → lookup name s.config.programs ≡ some prog
      → prog.autorestart ≡ restart_unexpected
      → p.exit_code ≡ pos 0
      → status.reason ≡ exited_cleanly
  abandoned :
      (prog : ProgramConfig)
      → lookup name s.blocked_reason ≡ none
      → p.state ≡ exited
      → lookup name s.config.programs ≡ some prog
      → prog.autorestart ≢ restart_never
      → (prog.autorestart ≡ restart_unexpected → p.exit_code ≢ pos 0)
      → status.reason ≡ exited_with_status p.exit_code
  silent :
      lookup name s.blocked_reason ≡ none
      → p.state ≢ fatal
      → p.state ≢ exited
      → status.reason ≡ no_reason

exited_reason-other :
    (policy : RestartPolicy) (code : ℤ)
    → policy ≢ restart_never
    → (policy ≡ restart_unexpected → code ≢ pos 0)
    → exited_reason (some policy) code ≡ exited_with_status code
unfolding exited_reason
exited_reason-other restart_never code h k = absurd (h refl)
exited_reason-other restart_always code h k = refl
exited_reason-other restart_unexpected (pos zero) h k = absurd (k refl refl)
exited_reason-other restart_unexpected (pos (suc n)) h k = refl
exited_reason-other restart_unexpected (negsuc n) h k = refl

process_status-IsStatusOf :
    (now : ℕ) (s : Server) (name : Str) (p : Process)
    → IsStatusOf now s name p (process_status now s name p)
unfolding not_running_reason exited_reason autorestart_policy
process_status-IsStatusOf now s name p = record {
  named = refl;
  state = refl;
  desired = refl;
  health = refl;
  pid = refl;
  exit_code = refl;
  restart_count = refl;
  up = λ h. ground (arith, h);
  down = λ h. ground (arith, h);
  blocked = λ reason h. ground (arith, h);
  gave_up = λ h k. ground (arith, h, k);
  left_alone = λ prog h k found policy. ground (arith, h, k, found, policy);
  done = λ prog h k found policy zero. ground (arith, h, k, found, policy, zero);
  abandoned = λ prog h k found asked failed.
      ground (arith, h, k, found, exited_reason-other prog.autorestart p.exit_code asked failed);
  silent = λ h k l. ground (arith, h, k, l);
}

-- The status of one program, or nothing.
abbrev one : ℕ → Server → Str → Option Process → List ProcessStatusInfo
one now s name none = []
one now s name (some p) = process_status now s name p ∷ []

select_process-statuses :
    (now : ℕ) (s : Server) (processes : Dict Process) (name : Str)
    → IsMap processes
    → select_process (sort_statuses (statuses now s processes)) name
      ≡ one now s name (lookup name processes)
unfolding select_process sort_statuses statuses lookup
select_process-statuses now s [] name h = refl
select_process-statuses now s ((k, p) ∷ processes) name h =
    select_process-insert_status (process_status now s k p)
      (sort_statuses (statuses now s processes)) name
      (select_process-statuses now s processes k h.1 ∙ ground (arith, h.0))
    ∙ ground (arith, select_process-statuses now s processes name h.1, str_eq_iff k name)

-- What is selected from the status for one program.
abbrev pub IsListed : ℕ → Server → Str → Option Process → List ProcessStatusInfo → Type 0
IsListed now s name none listed = listed ≡ []
IsListed now s name (some p) listed =
    (status : ProcessStatusInfo) × (listed ≡ status ∷ []) × IsStatusOf now s name p status

one-IsListed :
    (now : ℕ) (s : Server) (name : Str) (o : Option Process) (listed : List ProcessStatusInfo)
    → listed ≡ one now s name o
    → IsListed now s name o listed
one-IsListed now s name none listed h = h
one-IsListed now s name (some p) listed h =
    (process_status now s name p, h, process_status-IsStatusOf now s name p)

pub get_status_lem :
    (now : ℕ) (s : Server)
    → IsMap s.processes
    → IsSorted (get_status now s)
      × ((name : Str)
          → IsListed now s name (lookup name s.processes) (select_process (get_status now s) name))
unfolding get_status
get_status_lem now s h = (
  sort_statuses-IsSorted (statuses now s s.processes),
  λ name.
      one-IsListed now s name (lookup name s.processes) _
        (select_process-statuses now s s.processes name h),
)

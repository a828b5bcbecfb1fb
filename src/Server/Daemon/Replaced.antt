-- ===== src/Server/Daemon/Replaced.antt =====
-- What making and reloading the server does to its maps (internal/server/server.go, `New`;
-- internal/server/reload.go, `Reload`).
use supavisor.Prelude.{
  ◌≡◌, refl, sym, ap, subst, ◌∙◌, Bool, true, false, Option, none, some, List, [], ◌∷◌,
  if◌then◌else◌, ◌||◌, Str, str_eq_iff, Dict, lookup, lookup-insert, insert-IsMap, delete-IsMap,
  IsMap, has, arith,
}
use supavisor.Config.{Config, ProgramConfig}
use supavisor.Process.{Process, new_process}
use supavisor.Server.{Server, DesiredState, request_reconcile, mark_state_dirty}
use supavisor.Server.Reload.{
  Diff, diff_programs, drop_program, replace_program, add_program, for_each, apply_programs,
  autostart_state,
}
use supavisor.Server.Reload.Applied.{reloaded, apply_programs_lem}
use supavisor.Server.Daemon.{populate, blank_server, Reloading, reload_end}
use supavisor.Server.Daemon.Fitting.{config_of, has-config_of, IsAccepted, Fits}

for_each-IsMap :
    (f : Str → Server → Server)
    → ((name : Str) (s : Server) → IsMap s.processes → IsMap (f name s).processes)
    → (names : List Str) (s : Server) → IsMap s.processes
    → IsMap (for_each f names s).processes
unfolding for_each
for_each-IsMap f keep [] s m = m
for_each-IsMap f keep (name ∷ names) s m = for_each-IsMap f keep names (f name s) (keep name s m)

drop-IsMap : (name : Str) (s : Server) → IsMap s.processes → IsMap (drop_program name s).processes
unfolding drop_program
drop-IsMap name s m = delete-IsMap name s.processes m

replace-IsMap :
    (cfg : Config) (previous : Dict DesiredState) (name : Str) (s : Server)
    → IsMap s.processes
    → IsMap (replace_program cfg previous name s).processes
unfolding replace_program
replace-IsMap cfg previous name s m = by_program (lookup name cfg.programs) refl
  where
    by_program :
        (o : Option ProgramConfig)
        → lookup name cfg.programs ≡ o
        → IsMap (replace_program cfg previous name s).processes
    by_program none e = rw (replace_program, e) m
    by_program (some prog) e =
        rw (replace_program, e) (insert-IsMap name (new_process prog) s.processes m)

add-IsMap :
    (cfg : Config) (name : Str) (s : Server)
    → IsMap s.processes
    → IsMap (add_program cfg name s).processes
unfolding add_program
add-IsMap cfg name s m = by_program (lookup name cfg.programs) refl
  where
    by_program :
        (o : Option ProgramConfig)
        → lookup name cfg.programs ≡ o
        → IsMap (add_program cfg name s).processes
    by_program none e = rw (add_program, e) m
    by_program (some prog) e =
        rw (add_program, e) (insert-IsMap name (new_process prog) s.processes m)

apply-IsMap :
    (cfg : Config) (previous : Dict DesiredState) (diff : Diff) (s : Server)
    → IsMap s.processes
    → IsMap (apply_programs cfg previous diff s).processes
unfolding apply_programs
apply-IsMap cfg previous diff s m = for_each-IsMap (add_program cfg) (add-IsMap cfg) diff.added _ (
    for_each-IsMap (replace_program cfg previous) (replace-IsMap cfg previous) diff.changed _
      (for_each-IsMap drop_program drop-IsMap diff.removed s m))

new_process-config : (prog : ProgramConfig) → config_of (some (new_process prog)) ≡ some prog
unfolding new_process
new_process-config prog = refl

-- The entry of a program once the loop of `New` has been over it.
abbrev populated : Option ProgramConfig → Option ProgramConfig → Option ProgramConfig
populated (some prog) old = some prog
populated none old = old

populate-managed :
    (programs : Dict ProgramConfig) (s : Server) (a : Str)
    → IsMap programs
    → config_of (lookup a (populate programs s).processes)
      ≡ populated (lookup a programs) (config_of (lookup a s.processes))
unfolding populate lookup
populate-managed [] s a m = refl
populate-managed ((name, prog) ∷ programs) s a m =
    populate-managed programs _ a m.1
    ∙ ground (
      arith,
      lookup-insert name a (new_process prog) s.processes,
      new_process-config prog,
      str_eq_iff name a,
      m.0,
    )

populate-wanted :
    (programs : Dict ProgramConfig) (s : Server) (a : Str)
    → has (lookup a (populate programs s).desired)
      ≡ (has (lookup a programs) || has (lookup a s.desired))
unfolding populate lookup
populate-wanted [] s a = refl
populate-wanted ((name, prog) ∷ programs) s a =
    populate-wanted programs _ a
    ∙ ground (arith, lookup-insert name a (autostart_state prog.autostart) s.desired)

populate-kept :
    (programs : Dict ProgramConfig) (s : Server)
    → IsMap s.processes
    → IsMap (populate programs s).processes × ((populate programs s).config ≡ s.config)
unfolding populate
populate-kept [] s m = (m, refl)
populate-kept ((name, prog) ∷ programs) s m =
    populate-kept programs _ (insert-IsMap name (new_process prog) s.processes m)

-- The server that `New` makes fits its configuration.
pub populate-Fits :
    (cfg : Config) → IsAccepted cfg → Fits (populate cfg.programs (blank_server cfg))
unfolding lookup
populate-Fits cfg accepted =
    let (unique, same) = populate-kept cfg.programs (blank_server cfg) tt in
    record {
      accepted = subst IsAccepted (sym same) accepted;
      unique = unique;
      managed = λ a.
          populate-managed cfg.programs (blank_server cfg) a accepted.unique
          ∙ (populated-none (lookup a cfg.programs)
              ∙ ap (λ (c : Config). lookup a c.programs) (sym same));
      wanted = λ a.
          populate-wanted cfg.programs (blank_server cfg) a
          ∙ (or_false (has (lookup a cfg.programs))
              ∙ ap (λ (c : Config). has (lookup a c.programs)) (sym same));
    }
  where
    populated-none : (o : Option ProgramConfig) → populated o none ≡ o
    populated-none none = refl
    populated-none (some prog) = refl

    or_false : (t : Bool) → (t || false) ≡ t
    or_false true = refl
    or_false false = refl

-- What a reload that waits has kept, for the server that it began with.
pub record IsPlanned (deep_equal : ProgramConfig → ProgramConfig → Bool) (r : Reloading)
    (s : Server) : Type 0 where
  pub accepted : IsAccepted r.config
  pub planned : r.diff ≡ diff_programs deep_equal s.config.programs r.config.programs
  pub wanted : (a : Str) → has (lookup a r.previous) ≡ has (lookup a s.config.programs)

module _ (deep_equal : ProgramConfig → ProgramConfig → Bool)
    (equal : (p q : ProgramConfig) → deep_equal p q ≡ true → p ≡ q) where
  reloaded-managed :
      (old new : Option ProgramConfig) (now : Option Process × Option DesiredState)
      (before : Option DesiredState)
      → config_of now.0 ≡ old
      → config_of (reloaded deep_equal old new now before).0 ≡ new
  reloaded-managed old none now before h = refl
  reloaded-managed none (some prog) now before h = new_process-config prog
  reloaded-managed (some prog') (some prog) now before h = by_equal (deep_equal prog' prog) refl
    where
      by_equal :
          (b : Bool)
          → deep_equal prog' prog ≡ b
          → config_of (if b then now else (some (new_process prog), before)).0 ≡ some prog
      by_equal true e = h ∙ ap some (equal prog' prog e)
      by_equal false e = new_process-config prog

  reloaded-wanted :
      (old new : Option ProgramConfig) (now : Option Process × Option DesiredState)
      (before : Option DesiredState)
      → has now.1 ≡ has old
      → has before ≡ has old
      → has (reloaded deep_equal old new now before).1 ≡ has new
  reloaded-wanted old none now before h k = refl
  reloaded-wanted none (some prog) now before h k = refl
  reloaded-wanted (some prog') (some prog) now before h k = by_equal (deep_equal prog' prog)
    where
      by_equal : (b : Bool) → has (if b then now else (some (new_process prog), before)).1 ≡ true
      by_equal true = h
      by_equal false = k

  -- The entries of a program when the plan is applied.
  applied-entry :
      (r : Reloading) (s : Server) (a : Str)
      → IsPlanned deep_equal r s
      → Fits s
      → let s' = apply_programs r.config r.previous r.diff s in
        (lookup a s'.processes, lookup a s'.desired)
        ≡ reloaded deep_equal
            (lookup a s.config.programs)
            (lookup a r.config.programs)
            (lookup a s.processes, lookup a s.desired)
            (lookup a r.previous)
  applied-entry r s a k f =
      subst
        (λ d.
          let s' = apply_programs r.config r.previous d s in
          (lookup a s'.processes, lookup a s'.desired)
          ≡ reloaded deep_equal (lookup a s.config.programs) (lookup a r.config.programs)
              (lookup a s.processes, lookup a s.desired) (lookup a r.previous))
        (sym k.planned)
        (apply_programs_lem deep_equal r.config r.previous s a k.accepted.unique
          (sym (has-config_of (lookup a s.processes)) ∙ ap has (f.managed a)) (f.wanted a)).0

  -- The server fits the new configuration once the reload is over.
  pub reload_end-Fits :
      (r : Reloading) (s : Server)
      → IsPlanned deep_equal r s
      → Fits s
      → Fits (reload_end r s) × ((reload_end r s).config ≡ r.config)
  unfolding reload_end request_reconcile mark_state_dirty apply_programs
  reload_end-Fits r s k f = (
    record {
      accepted = k.accepted;
      unique = apply-IsMap r.config r.previous r.diff s f.unique;
      managed = λ a.
          ap (λ (e : Option Process × Option DesiredState). config_of e.0) (applied-entry r s a k f)
          ∙ reloaded-managed (lookup a s.config.programs) (lookup a r.config.programs)
              (lookup a s.processes, lookup a s.desired) (lookup a r.previous) (f.managed a);
      wanted = λ a.
          ap (λ (e : Option Process × Option DesiredState). has e.1) (applied-entry r s a k f)
          ∙ reloaded-wanted (lookup a s.config.programs) (lookup a r.config.programs)
              (lookup a s.processes, lookup a s.desired) (lookup a r.previous) (f.wanted a)
              (k.wanted a);
    },
    refl,
  )

-- ===== src/Server/Reload/Applied.antt =====
-- What a reload leaves running (internal/server/reload.go, `applyPrograms`).
use supavisor.Prelude.{
  has, ◌≡◌, refl, Bool, Option, none, some, List, [], ◌∷◌, if◌then◌else◌, Str, str_eq, str_eq_iff,
  contains, Dict, IsMap, lookup, lookup-insert, lookup-delete, arith,
}
use supavisor.Config.{Config, ProgramConfig}
use supavisor.Process.{Process, new_process}
use supavisor.Server.{Server, DesiredState}
use supavisor.Server.Reload.{
  diff_programs, drop_program, restored, autostart_state, replace_program, add_program, for_each,
  apply_programs,
}
use supavisor.Server.Reload.Plan.{diff_programs_lem}

-- The entries of one program.
abbrev entry : Str → Server → Option Process × Option DesiredState
entry a s = (lookup a s.processes, lookup a s.desired)

drop-entry :
    (name a : Str) (s : Server)
    → entry a (drop_program name s) ≡ (if str_eq name a then (none, none) else entry a s)
unfolding drop_program
drop-entry name a s =
    ground (arith, lookup-delete name a s.processes, lookup-delete name a s.desired)

drop_all-entry :
    (names : List Str) (a : Str) (s : Server)
    → entry a (for_each drop_program names s)
      ≡ (if contains names a then (none, none) else entry a s)
unfolding for_each contains
drop_all-entry [] a s = refl
drop_all-entry (name ∷ names) a s =
    ground (arith, drop_all-entry names a (drop_program name s), drop-entry name a s)

restored-lookup :
    (name a : Str) (o : Option DesiredState) (m : Dict DesiredState)
    → lookup a (restored o m name) ≡ (if str_eq name a then o else lookup a m)
restored-lookup name a none m = lookup-delete name a m
restored-lookup name a (some d) m = lookup-insert name a d m

module _ (cfg : Config) (previous : Dict DesiredState) where
  -- What a replaced program's entries are.
  abbrev replaced :
      Str
      → Option ProgramConfig
      → Option Process × Option DesiredState
      → Option Process × Option DesiredState
  replaced a none old = old
  replaced a (some prog) old = (some (new_process prog), lookup a previous)

  replace-entry :
      (name a : Str) (s : Server)
      → entry a (replace_program cfg previous name s)
        ≡ (if str_eq name a then replaced a (lookup a cfg.programs) (entry a s) else entry a s)
  unfolding replace_program
  replace-entry name a s = by_program (lookup name cfg.programs) refl
    where
      by_program :
          (o : Option ProgramConfig)
          → lookup name cfg.programs ≡ o
          → entry a (replace_program cfg previous name s)
            ≡ (if str_eq name a then replaced a (lookup a cfg.programs) (entry a s) else entry a s)
      by_program none e = ground (arith, str_eq_iff name a)
      by_program (some prog) e = ground (
        arith,
        str_eq_iff name a,
        lookup-insert name a (new_process prog) s.processes,
        restored-lookup name a (lookup name previous) s.desired,
      )

  replace_all-entry :
      (names : List Str) (a : Str) (s : Server)
      → entry a (for_each (replace_program cfg previous) names s)
        ≡ (if contains names a then replaced a (lookup a cfg.programs) (entry a s) else entry a s)
  unfolding for_each contains
  replace_all-entry [] a s = refl
  replace_all-entry (name ∷ names) a s = ground (
    arith,
    replace_all-entry names a (replace_program cfg previous name s),
    replace-entry name a s,
  )

abbrev fresh :
    Option ProgramConfig
    → Option Process × Option DesiredState
    → Option Process × Option DesiredState
fresh none old = old
fresh (some prog) old = (some (new_process prog), some (autostart_state prog.autostart))

add-entry :
    (cfg : Config) (name a : Str) (s : Server)
    → entry a (add_program cfg name s)
      ≡ (if str_eq name a then fresh (lookup a cfg.programs) (entry a s) else entry a s)
unfolding add_program
add-entry cfg name a s = by_program (lookup name cfg.programs) refl
  where
    by_program :
        (o : Option ProgramConfig)
        → lookup name cfg.programs ≡ o
        → entry a (add_program cfg name s)
          ≡ (if str_eq name a then fresh (lookup a cfg.programs) (entry a s) else entry a s)
    by_program none e = ground (arith, str_eq_iff name a)
    by_program (some prog) e = ground (
      arith,
      str_eq_iff name a,
      lookup-insert name a (new_process prog) s.processes,
      lookup-insert name a (autostart_state prog.autostart) s.desired,
    )

add_all-entry :
    (cfg : Config) (names : List Str) (a : Str) (s : Server)
    → entry a (for_each (add_program cfg) names s)
      ≡ (if contains names a then fresh (lookup a cfg.programs) (entry a s) else entry a s)
unfolding for_each contains
add_all-entry cfg [] a s = refl
add_all-entry cfg (name ∷ names) a s =
    ground (arith, add_all-entry cfg names a (add_program cfg name s), add-entry cfg name a s)

module _ (deep_equal : ProgramConfig → ProgramConfig → Bool) where
  -- What a reload means for one program, from its two configurations, its entries when the plan is
  -- applied, and the desired state that was kept for it.
  abbrev pub reloaded :
      Option ProgramConfig
      → Option ProgramConfig
      → Option Process × Option DesiredState
      → Option DesiredState
      → Option Process × Option DesiredState
  reloaded old none now before = (none, none)
  reloaded none (some prog) now before =
      (some (new_process prog), some (autostart_state prog.autostart))
  reloaded (some prog') (some prog) now before =
      if deep_equal prog' prog then now else (some (new_process prog), before)

  -- Applying the plan of a reload, with a new configuration that has each program once, to a server
  -- whose processes and desired states are, at a name, those of its configuration: at that name, a
  -- program that the new configuration has not is forgotten, one that is new gets a process and is
  -- wanted if it is set to start on its own, one that changed gets a new process and the desired
  -- state that was kept for it, and any other keeps both. The server then has the new configuration.
  pub apply_programs_lem :
      (cfg : Config) (previous : Dict DesiredState) (s : Server) (a : Str)
      → IsMap cfg.programs
      → has (lookup a s.processes) ≡ has (lookup a s.config.programs)
      → has (lookup a s.desired) ≡ has (lookup a s.config.programs)
      → let s' =
          apply_programs cfg previous (diff_programs deep_equal s.config.programs cfg.programs) s in
        ((lookup a s'.processes, lookup a s'.desired)
          ≡ reloaded
              (lookup a s.config.programs)
              (lookup a cfg.programs)
              (lookup a s.processes, lookup a s.desired)
              (lookup a previous))
        × (s'.config ≡ cfg)
  unfolding apply_programs
  apply_programs_lem cfg previous s a unique processes desired =
      let d = diff_programs deep_equal s.config.programs cfg.programs in
      let dropped = for_each drop_program d.removed s in
      let swapped = for_each (replace_program cfg previous) d.changed dropped in
      ground (
        arith,
        diff_programs_lem deep_equal s.config.programs cfg.programs a unique,
        drop_all-entry d.removed a s,
        replace_all-entry cfg previous d.changed a dropped,
        add_all-entry cfg d.added a swapped,
      )

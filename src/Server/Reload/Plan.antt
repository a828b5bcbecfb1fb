-- ===== src/Server/Reload/Plan.antt =====
-- Which programs a reload adds, drops and replaces (internal/server/reload.go, `diffPrograms`,
-- `changedDaemonSetting`).
use supavisor.Prelude.{
  has, ◌≡◌, refl, ◌∙◌, ◌↔◌, Bool, false, not, ◌&&◌, Option, none, some, [], ◌∷◌, Str, str_eq_iff,
  str_eq_refl, contains, contains-sort, Dict, IsMap, lookup, arith,
}
use supavisor.Config.{ProgramConfig, SupavisorConfig}
use supavisor.Server.Reload.{
  missing_from, is_changed, changed_from, diff_programs, changed_daemon_setting,
}

contains-missing_from :
    (others m : Dict ProgramConfig) (a : Str)
    → contains (missing_from others m) a ≡ (has (lookup a m) && not (has (lookup a others)))
unfolding missing_from contains lookup
contains-missing_from others [] a = refl
contains-missing_from others ((k, v) ∷ m) a =
    ground (arith, str_eq_iff k a, contains-missing_from others m a)

module _ (deep_equal : ProgramConfig → ProgramConfig → Bool) where
  -- Whether the program of that name is in both configurations and differs.
  abbrev pub differs : Option ProgramConfig → Option ProgramConfig → Bool
  differs old none = false
  differs old (some prog) = is_changed deep_equal old prog

  contains-changed_from :
      (old m : Dict ProgramConfig) (a : Str)
      → IsMap m
      → contains (changed_from deep_equal old m) a ≡ differs (lookup a old) (lookup a m)
  unfolding changed_from contains lookup
  contains-changed_from old [] a h = refl
  contains-changed_from old ((k, v) ∷ m) a h =
      ground (arith, str_eq_iff k a, contains-changed_from old m a h.1)

  -- For a new configuration that has each program once: a name is listed as added exactly when only
  -- the new configuration has it, as removed exactly when only the old one has it, and as changed
  -- exactly when both have it and the programs are not deeply equal, in whatever order the maps are
  -- visited.
  pub diff_programs_lem :
      (old updated : Dict ProgramConfig) (a : Str)
      → IsMap updated
      → let d = diff_programs deep_equal old updated in
        (contains d.added a ≡ (has (lookup a updated) && not (has (lookup a old))))
        × (contains d.removed a ≡ (has (lookup a old) && not (has (lookup a updated))))
        × (contains d.changed a ≡ differs (lookup a old) (lookup a updated))
  unfolding diff_programs
  diff_programs_lem old updated a h = (
    contains-sort (missing_from old updated) a ∙ contains-missing_from old updated a,
    contains-sort (missing_from updated old) a ∙ contains-missing_from updated old a,
    contains-sort (changed_from deep_equal old updated) a ∙ contains-changed_from old updated a h,
  )

-- A reload is refused for a daemon setting exactly when some daemon setting differs.
changed_daemon_setting_iff :
    (old updated : SupavisorConfig) → (changed_daemon_setting old updated ≡ none) ↔ (old ≡ updated)
unfolding changed_daemon_setting
changed_daemon_setting_iff old updated = (
  λ h. ground (
    arith,
    str_eq_iff old.pid_file updated.pid_file,
    str_eq_iff old.socket updated.socket,
    str_eq_iff old.socket_group updated.socket_group,
    str_eq_iff old.log_file updated.log_file,
    str_eq_iff old.log_format updated.log_format,
    str_eq_iff old.log_level updated.log_level,
  ),
  λ e. rw e (simp str_eq_refl),
)

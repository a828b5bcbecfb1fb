-- ===== src/Config/Validate/Accepted.antt =====
-- What a configuration that passes is known to satisfy (internal/config/config.go, `Validate`,
-- `validateLogPaths`).
use supavisor.Prelude.{
  has, contains-keys, ap, ◌≡◌, ◌≢◌, refl, sym, subst, ◌∙◌, ◌↔◌, inl, inr, true, Option, none, some,
  List, [], ◌∷◌, In, Str, str_eq, str_eq_iff, contains, contains-sort, Dict, lookup, keys, arith,
  Bool-cases,
}
use supavisor.Config.{
  Config, ProgramConfig, Dependency, DependencyCondition, condition_started, condition_healthy,
  condition_completed, RestartPolicy, restart_always, restart_never, restart_unexpected,
  HealthCheck,
}
use supavisor.Config.Result.{ok, err, Result, ◌>>◌, guard-true}
use supavisor.Config.Validate.{
  sorted_program_names, has_check, ends_for_good, check_reachable, check_target, check_dependencies,
  dependencies_in, check_programs, validate_dependencies,
}

-- The condition that a dependency is waited on for is one that the target can reach.
abbrev IsReachable : DependencyCondition → ProgramConfig → Type 0
IsReachable condition_started target = Unit
IsReachable condition_healthy target = target.health_check ≢ none
IsReachable condition_completed target = target.autorestart ≢ restart_always

-- The dependency is a program of the configuration that can reach the condition.
abbrev pub IsMet : Option ProgramConfig → DependencyCondition → Type 0
IsMet o c = (target : ProgramConfig) × (o ≡ some target) × IsReachable c target

has_check_iff : (o : Option HealthCheck) → (has_check o ≡ true) ↔ (o ≢ none)
has_check_iff none = (λ h. cc, λ h. absurd (h refl))
has_check_iff (some check) = (λ h e. cc, λ h. refl)

ends_for_good_iff : (r : RestartPolicy) → (ends_for_good r ≡ true) ↔ (r ≢ restart_always)
ends_for_good_iff restart_always = (λ h. cc, λ h. absurd (h refl))
ends_for_good_iff restart_never = (λ h e. cc, λ h. refl)
ends_for_good_iff restart_unexpected = (λ h e. cc, λ h. refl)

check_reachable_iff :
    (name : Str) (dep : Dependency) (c : DependencyCondition) (target : ProgramConfig)
    → (check_reachable name dep c target ≡ ok tt) ↔ IsReachable c target
check_reachable_iff name dep condition_started target = (λ h. tt, λ h. refl)
check_reachable_iff name dep condition_healthy target = (
  λ h. (has_check_iff target.health_check).0 (guard-true (has_check target.health_check) _ h),
  λ h. rw ((has_check_iff target.health_check).1 h) refl,
)
check_reachable_iff name dep condition_completed target = (
  λ h. (ends_for_good_iff target.autorestart).0 (guard-true (ends_for_good target.autorestart) _ h),
  λ h. rw ((ends_for_good_iff target.autorestart).1 h) refl,
)

check_target_iff :
    (name : Str) (dep : Dependency) (o : Option ProgramConfig)
    → (check_target name dep o ≡ ok tt) ↔ IsMet o dep.condition
check_target_iff name dep none = (λ h. cc, λ h. cc)
check_target_iff name dep (some target) = (
  λ h. (target, refl, (check_reachable_iff name dep dep.condition target).0 h),
  λ h.
      (check_reachable_iff name dep dep.condition target).1
        (subst (IsReachable dep.condition) (same h.0 h.1) h.2),
)
  where
    same : (other : ProgramConfig) → some target ≡ some other → other ≡ target
    same other e = cc

>>-ok_iff :
    (first later : Result (Unit {0}))
    → (first >> later ≡ ok tt) ↔ ((first ≡ ok tt) × (later ≡ ok tt))
>>-ok_iff (err e) later = (λ h. cc, λ h. cc)
>>-ok_iff (ok u) later = (λ h. (refl, h), λ h. h.1)

pub sorted_program_names-contains :
    (m : Dict ProgramConfig) (name : Str) (prog : ProgramConfig)
    → lookup name m ≡ some prog
    → contains (sorted_program_names m) name ≡ true
unfolding sorted_program_names
sorted_program_names-contains m name prog h =
    contains-sort (keys m) name ∙ contains-keys m name ∙ ap has h

check_dependencies_iff :
    (programs : Dict ProgramConfig) (name : Str) (deps : List Dependency)
    → (check_dependencies programs name deps ≡ ok tt)
      ↔ ((dep : Dependency) → In dep deps → IsMet (lookup dep.name programs) dep.condition)
unfolding check_dependencies
check_dependencies_iff programs name [] = (λ h dep m. absurd m, λ h. refl)
check_dependencies_iff programs name (d ∷ deps) =
    let first = check_target_iff name d (lookup d.name programs) in
    let later = check_dependencies_iff programs name deps in
    let both =
      >>-ok_iff (check_target name d (lookup d.name programs))
        (check_dependencies programs name deps) in
    (
      λ h dep m. by_place dep (first.0 (both.0 h).0) (later.0 (both.0 h).1) m,
      λ h. both.1 (first.1 (h d (inl refl)), later.1 (λ dep m. h dep (inr m))),
    )
  where
    by_place :
        (dep : Dependency)
        → IsMet (lookup d.name programs) d.condition
        → ((x : Dependency) → In x deps → IsMet (lookup x.name programs) x.condition)
        → In dep (d ∷ deps)
        → IsMet (lookup dep.name programs) dep.condition
    by_place dep here there (inl e) =
        subst (λ x. IsMet (lookup x.name programs) x.condition) (sym e) here
    by_place dep here there (inr m) = there dep m

check_programs-ok :
    (programs : Dict ProgramConfig) (names : List Str)
    → check_programs programs names ≡ ok tt
    → (name : Str) → contains names name ≡ true
    → (dep : Dependency) → In dep (dependencies_in (lookup name programs))
    → IsMet (lookup dep.name programs) dep.condition
unfolding check_programs contains
check_programs-ok programs [] h name m dep d = ground arith
check_programs-ok programs (n ∷ names) h name m dep d =
    let deps = dependencies_in (lookup n programs) in
    let (first, later) =
      (>>-ok_iff (check_dependencies programs n deps) (check_programs programs names)).0 h in
    elim (Bool-cases (str_eq n name)) [
      | inl same ↦ (check_dependencies_iff programs n deps).0 first dep (
          subst (λ x. In dep (dependencies_in (lookup x programs)))
            (sym ((str_eq_iff n name).0 same)) d)
      | inr other ↦ check_programs-ok programs names later name (ground (arith, m, other)) dep d
    ]

check_programs-met :
    (programs : Dict ProgramConfig) (names : List Str)
    → ((name : Str) (dep : Dependency)
        → In dep (dependencies_in (lookup name programs))
        → IsMet (lookup dep.name programs) dep.condition)
    → check_programs programs names ≡ ok tt
unfolding check_programs
check_programs-met programs [] h = refl
check_programs-met programs (n ∷ names) h =
    let deps = dependencies_in (lookup n programs) in
    (>>-ok_iff (check_dependencies programs n deps) (check_programs programs names)).1
      ((check_dependencies_iff programs n deps).1 (h n), check_programs-met programs names h)

-- The dependencies of a configuration are accepted exactly when each program's are programs of it
-- that can reach the condition they are waited on for: they have a health check where they are to
-- be healthy, and are not always restarted where they are to complete.
pub validate_dependencies_iff :
    (cfg : Config)
    → (validate_dependencies cfg ≡ ok tt) ↔ (
        (name : Str) (prog : ProgramConfig) (dep : Dependency)
        → lookup name cfg.programs ≡ some prog
        → In dep prog.depends_on
        → IsMet (lookup dep.name cfg.programs) dep.condition)
unfolding validate_dependencies
validate_dependencies_iff cfg = (
  λ h name prog dep found m.
      check_programs-ok cfg.programs (sorted_program_names cfg.programs) h name
        (sorted_program_names-contains cfg.programs name prog found) dep
        (subst (λ o. In dep (dependencies_in o)) (sym found) m),
  λ h.
      check_programs-met cfg.programs (sorted_program_names cfg.programs)
        (λ name dep m. by_program name dep (lookup name cfg.programs) refl h m),
)
  where
    by_program :
        (name : Str) (dep : Dependency) (o : Option ProgramConfig)
        → lookup name cfg.programs ≡ o
        → ((name : Str) (prog : ProgramConfig) (dep : Dependency)
            → lookup name cfg.programs ≡ some prog
            → In dep prog.depends_on
            → IsMet (lookup dep.name cfg.programs) dep.condition)
        → In dep (dependencies_in o)
        → IsMet (lookup dep.name cfg.programs) dep.condition
    by_program name dep none e h m = absurd m
    by_program name dep (some prog) e h m = h name prog dep e m

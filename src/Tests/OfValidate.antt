-- ===== src/Tests/OfValidate.antt =====
-- Tests of the model of `Validate` in internal/config/config.go.
use supavisor.Prelude.{
  ◌≡◌, ◌↔◌, refl, some, [], ◌∷◌, inl, In, Str, text, str_eq, str_le, insert_sorted, sort, lookup,
  insert, keys,
}
use supavisor.Config.{Config, ProgramConfig, Dependency, condition_healthy}
use supavisor.Config.Result.{ok, err, no_health_check, shared_log}
use supavisor.Config.Validate.{
  sorted_program_names, check_dependencies, check_programs, validate_dependencies, claim_path,
  claim_all, validate_log_paths,
}
use supavisor.Config.Validate.Accepted.{IsMet, validate_dependencies_iff}
use supavisor.Config.Validate.LogFiles.{validate_log_paths-disjoint}
use supavisor.Tests.Samples.{web, db, db_program, web_program, both}

validating : Unit {0}
unfolding validate_dependencies validate_log_paths check_programs check_dependencies claim_path
    claim_all sorted_program_names sort insert_sorted keys lookup insert str_eq str_le
validating = tt

-- `web` logs both its streams to one file, and `db` has another.
abbrev log : Str
log = text "/log/web"

abbrev web_logs : ProgramConfig
web_logs = record web_program { stdout_logfile = log; stderr_logfile = log }

abbrev logging : Config
logging = record both {
  programs = (web, web_logs) ∷ (db, record db_program { stdout_logfile = text "/log/db" }) ∷ [];
}

abbrev sharing : Config
sharing = record both {
  programs = (web, web_logs) ∷ (db, record db_program { stderr_logfile = log }) ∷ [];
}

sharing_refused : validate_log_paths sharing ≡ err (shared_log db web log)
unfolding validating
sharing_refused = refl

validate_log_paths-disjoint_example : web ≡ web
unfolding validating
validate_log_paths-disjoint_example =
    validate_log_paths-disjoint logging web web web_logs web_logs log refl refl refl refl (inl refl)
      (inl refl)

-- `web` waits for `db` to be healthy, and `db` has no health check.
abbrev waiting : Config
waiting = record both {
  programs =
      (
        web,
        record web_program {
          depends_on = record { name = db; condition = condition_healthy } ∷ [];
        },
      )
      ∷ (db, db_program)
      ∷ [];
}

waiting_refused : validate_dependencies waiting ≡ err (no_health_check web db)
unfolding validating
waiting_refused = refl

validate_dependencies_iff_example : (validate_dependencies both ≡ ok tt) ↔ (
    (name : Str) (prog : ProgramConfig) (dep : Dependency)
    → lookup name both.programs ≡ some prog
    → In dep prog.depends_on
    → IsMet (lookup dep.name both.programs) dep.condition)
validate_dependencies_iff_example = validate_dependencies_iff both

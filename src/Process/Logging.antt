-- ===== src/Process/Logging.antt =====
-- Log capture of a run, in internal/process/process.go: `startLogging`, `addLogStream`,
-- `closeChildEnds`, `stopLogging`. Whether a log file and its pipe can be opened is the
-- environment's answer, `can_open`; what drains the pipe is not part of the process's state.
use supavisor.Prelude.{
  Bool, true, false, ◌&&◌, not, [], ◌∷◌, ◌++◌, map, if◌then◌else◌, Str, str_eq, is_empty,
}
use supavisor.Prelude.Int.{ℤ, max_ℤ}
use supavisor.Process.{Process, LogStream}

module _ (can_open : Str → Bool) where
  unfoldable add_log_stream : Str → ℤ → ℤ → ℤ → Process → Process × Bool
  add_log_stream path max_bytes backups max_age p =
      if can_open path
      then (
        record p {
          streams =
              p.streams
              ++ record {
                path = path;
                max_bytes = max_bytes;
                backups = backups;
                max_age = max_age;
                child_open = true;
              }
                ∷ [];
        },
        true,
      )
      else (p, false)

  -- The stream for stderr, where it has a file of its own.
  unfoldable start_stderr : Process → Process × Bool
  unfolding add_log_stream
  start_stderr p =
      if is_empty p.config.stderr_logfile
      then (p, true)
      else add_log_stream p.config.stderr_logfile p.config.stderr_logfile_max_bytes
          p.config.stderr_logfile_backups p.config.stderr_logfile_max_age p

  -- False is the error; the streams opened before it stay in the process.
  unfoldable pub start_logging : Process → Process × Bool
  unfolding add_log_stream start_stderr
  start_logging p =
      if not (is_empty p.config.stdout_logfile)
        && str_eq p.config.stdout_logfile p.config.stderr_logfile
      then add_log_stream p.config.stdout_logfile
          (max_ℤ p.config.stdout_logfile_max_bytes p.config.stderr_logfile_max_bytes)
          (max_ℤ p.config.stdout_logfile_backups p.config.stderr_logfile_backups)
          (max_ℤ p.config.stdout_logfile_max_age p.config.stderr_logfile_max_age) p
      else if is_empty p.config.stdout_logfile
      then start_stderr p
      else (let (p', opened) =
            add_log_stream p.config.stdout_logfile p.config.stdout_logfile_max_bytes
              p.config.stdout_logfile_backups p.config.stdout_logfile_max_age p in
          if opened then start_stderr p' else (p', false))

unfoldable pub close_child_ends : Process → Process
close_child_ends p = record p {
  streams = map (λ (s : LogStream). record s { child_open = false }) p.streams;
}

unfoldable pub stop_logging : Process → Process
stop_logging p = record p { streams = [] }

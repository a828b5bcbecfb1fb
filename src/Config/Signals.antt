-- ===== src/Config/Signals.antt =====
-- Stop signals: `stopSignals` and `parseSignal` of internal/config/config.go.
use supavisor.Prelude.{ℕ, none, some, [], ◌∷◌, if◌then◌else◌, Str, text, is_empty, Dict, lookup}
use supavisor.Config.{sighup, sigint, sigquit, sigkill, sigusr1, sigusr2, sigterm}
use supavisor.Config.Result.{Result, ok, err, invalid_stopsignal}
use supavisor.Config.Text.{trim_space, to_upper, trim_prefix}

abbrev pub stop_signals : Dict ℕ
stop_signals =
    (text "TERM", sigterm)
    ∷ (text "INT", sigint)
    ∷ (text "QUIT", sigquit)
    ∷ (text "HUP", sighup)
    ∷ (text "USR1", sigusr1)
    ∷ (text "USR2", sigusr2)
    ∷ (text "KILL", sigkill)
    ∷ []

unfoldable pub parse_signal : Str → Result ℕ
parse_signal name =
    if is_empty (trim_space name)
    then ok sigterm
    else elim (lookup (trim_prefix (text "SIG") (to_upper (trim_space name))) stop_signals) [
      | none ↦ err (invalid_stopsignal name)
      | some sig ↦ ok sig
    ]

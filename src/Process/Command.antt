-- ===== src/Process/Command.antt =====
-- The command splitter of internal/process/process.go: `parseCommand`, `commandScanner`.
-- The loop over the bytes keeps the scanner and the arguments so far.
pub mod Quoting
use supavisor.Prelude.{
  ℕ, zero, suc, ◌+◌, ◌==◌, ◌≡◌, refl, Bool, true, false, not, ◌||◌, ◌&&◌, Option, none, some, List,
  [], ◌∷◌, ◌++◌, if◌then◌else◌, Str, is_empty, text, arith,
}

-- `quote_char` is 0 outside quotes.
pub record CommandScanner : Type 0 where
  pub current : Str
  pub quote_char : ℕ
  pub in_quotes : Bool
  pub quoted : Bool

unfoldable pub finish : CommandScanner → CommandScanner × Option Str
finish s =
    if is_empty s.current && not s.quoted
    then (s, none)
    else (record s { current = []; quoted = false }, some s.current)

unfoldable pub step : CommandScanner → ℕ → CommandScanner × Option Str
unfolding finish
step s char =
    if (char == b'"' || char == b'\'') && not s.in_quotes
    then (record s { in_quotes = true; quote_char = char; quoted = true }, none)
    else if s.in_quotes && char == s.quote_char
    then (record s { in_quotes = false; quote_char = 0 }, none)
    else if (char == b' ' || char == b'\t') && not s.in_quotes
    then finish s
    else (record s { current = s.current ++ char ∷ [] }, none)

abbrev pub emit : List Str → Option Str → List Str
emit parts none = parts
emit parts (some arg) = parts ++ arg ∷ []

-- The test of the escape branch: a backslash that is not in single quotes and is not the last byte.
abbrev pub escapes : CommandScanner → ℕ → Bool
escapes s char = char == b'\\' && not (s.quote_char == b'\'')

unfoldable pub scan : CommandScanner → List Str → Str → List Str
unfolding step
scan s parts [] = emit parts (finish s).1
scan s parts (c ∷ []) = let (s', arg) = step s c in emit (emit parts arg) (finish s').1
scan s parts (c ∷ d ∷ rest) =
    let literal = scan (record s { current = s.current ++ d ∷ [] }) parts rest in
    let plain = (let (s', arg) = step s c in scan s' (emit parts arg) (d ∷ rest)) in
    if escapes s c then literal else plain

abbrev pub scanner : CommandScanner
scanner = record { current = []; quote_char = 0; in_quotes = false; quoted = false }

unfoldable pub parse_command : Str → List Str
unfolding scan
parse_command cmd = scan scanner [] cmd

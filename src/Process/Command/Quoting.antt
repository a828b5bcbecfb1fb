-- ===== src/Process/Command/Quoting.antt =====
-- Splitting a command line that was put together by quoting its arguments
-- (internal/process/process.go, `parseCommand`).
use supavisor.Prelude.{
  ℕ, ◌==◌, ◌≡◌, refl, ◌∙◌, true, false, ◌||◌, none, some, List, [], ◌∷◌, ◌++◌, if◌then◌else◌, Str,
  arith, Bool-cases, inl, inr,
}
use mathlib.Core.List.{append_assoc, append-nil}
use supavisor.Process.Command.{
  CommandScanner, finish, step, emit, escapes, scan, scanner, parse_command,
}

-- A byte as it is written between double quotes, and the rest behind it.
abbrev escape : ℕ → Str → Str
escape c rest = if c == b'"' || c == b'\\' then b'\\' ∷ c ∷ rest else c ∷ rest

-- The argument between double quotes, and the rest behind it.
abbrev quote_body : Str → Str → Str
quote_body [] rest = b'"' ∷ rest
quote_body (c ∷ arg) rest = escape c (quote_body arg rest)

abbrev quote : Str → Str → Str
quote arg rest = b'"' ∷ quote_body arg rest

-- The arguments, each quoted, with a blank before each.
abbrev pub command_line : List Str → Str
command_line [] = []
command_line (arg ∷ args) = b' ' ∷ quote arg (command_line args)

scan-plain :
    (s : CommandScanner) (parts : List Str) (c : ℕ) (rest : Str)
    → escapes s c ≡ false
    → scan s parts (c ∷ rest) ≡ scan (step s c).0 (emit parts (step s c).1) rest
unfolding scan
scan-plain s parts c [] h = refl
scan-plain s parts c (d ∷ rest) h = rw h

scan-escape :
    (s : CommandScanner) (parts : List Str) (c d : ℕ) (rest : Str)
    → escapes s c ≡ true
    → scan s parts (c ∷ d ∷ rest) ≡ scan (record s { current = s.current ++ d ∷ [] }) parts rest
unfolding scan
scan-escape s parts c d rest h = rw h

-- The scanner inside a double-quoted argument of which `current` has been read.
abbrev inside : Str → CommandScanner
inside current = record { current = current; quote_char = b'"'; in_quotes = true; quoted = true }

abbrev after : Str → CommandScanner
after current = record { current = current; quote_char = 0; in_quotes = false; quoted = true }

step-inside :
    (current : Str) (c : ℕ)
    → (c == b'"' || c == b'\\') ≡ false
    → step (inside current) c ≡ (inside (current ++ c ∷ []), none)
unfolding step finish
step-inside current c h = ground arith

escapes-inside :
    (current : Str) (c : ℕ) → (c == b'"' || c == b'\\') ≡ false → escapes (inside current) c ≡ false
escapes-inside current c h = ground arith

step-closing : (current : Str) → step (inside current) b'"' ≡ (after current, none)
unfolding step
step-closing current = refl

step-opening : step scanner b'"' ≡ (inside [], none)
unfolding step
step-opening = refl

step-blank : (current : Str) → step (after current) b' ' ≡ (scanner, some current)
unfolding step
step-blank current = ground arith

scan-quote_body :
    (current arg : Str) (parts : List Str) (rest : Str)
    → scan (inside current) parts (quote_body arg rest) ≡ scan (after (current ++ arg)) parts rest
scan-quote_body current [] parts rest =
    scan-plain (inside current) parts b'"' rest refl ∙ rw (step-closing current, append-nil)
scan-quote_body current (c ∷ arg) parts rest = elim (Bool-cases (c == b'"' || c == b'\\')) [
  | inl special ↦ rw special (
      scan-escape (inside current) parts b'\\' c (quote_body arg rest) refl
      ∙ rw (append_assoc) at (scan-quote_body (current ++ c ∷ []) arg parts rest))
  | inr plain ↦ rw plain (
      scan-plain (inside current) parts c (quote_body arg rest) (escapes-inside current c plain)
      ∙ rw (step-inside current c plain)
          (rw (append_assoc) at (scan-quote_body (current ++ c ∷ []) arg parts rest)))
]

scan-end :
    (current : Str) (parts : List Str) → scan (after current) parts [] ≡ parts ++ current ∷ []
unfolding scan finish
scan-end current parts = ground arith

-- Behind an argument, the blank ends it and the next one begins.
scan-command_line :
    (current : Str) (parts args : List Str)
    → scan (after current) parts (command_line args) ≡ parts ++ current ∷ args
scan-command_line current parts [] = scan-end current parts
scan-command_line current parts (arg ∷ args) =
    scan-plain (after current) parts b' ' _ refl
    ∙ rw (step-blank current) (
        scan-plain scanner (parts ++ current ∷ []) b'"' (quote_body arg (command_line args)) refl
        ∙ rw step-opening (
            scan-quote_body [] arg (parts ++ current ∷ []) (command_line args)
            ∙ rw append_assoc at (scan-command_line arg (parts ++ current ∷ []) args)))

step-scanner_blank : step scanner b' ' ≡ (scanner, none)
unfolding step
step-scanner_blank = refl

scan-nothing : scan scanner [] [] ≡ []
unfolding scan
scan-nothing = refl

scan-quoted_line : (args : List Str) → scan scanner [] (command_line args) ≡ args
scan-quoted_line [] = scan-nothing
scan-quoted_line (arg ∷ args) =
    let rest = command_line args in
    scan-plain scanner [] b' ' (quote arg rest) refl
    ∙ rw step-scanner_blank (
        scan-plain scanner [] b'"' (quote_body arg rest) refl
        ∙ rw step-opening (scan-quote_body [] arg [] rest ∙ scan-command_line arg [] args))

-- Writing each argument between double quotes, with a backslash before each quote and backslash
-- in it and a blank before each argument, and splitting the line gives the arguments back.
pub parse_command-command_line : (args : List Str) → parse_command (command_line args) ≡ args
unfolding parse_command
parse_command-command_line args = scan-quoted_line args

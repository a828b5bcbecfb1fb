-- ===== src/Logrotate/Numbers.antt =====
-- The numbers that a rotation reads from names (internal/logrotate/writer.go, `backupNumber`).
use supavisor.Prelude.{
  ℕ, zero, suc, ◌+◌, ◌-◌, ◌*◌, ◌%◌, ◌<◌, ◌≤◌, ◌≡◌, refl, sym, ap, ◌∙◌, Option, none, some, [], ◌∷◌,
  ◌++◌, Str, arith, inl, inr, Bool-cases, append_assoc,
}
use supavisor.Prelude.Int.{ℤ, pos, two_63, to_int64-exact}
use supavisor.Config.Text.{is_digit, strip_prefix}
use supavisor.Config.Text.Digits.{AllDigits, decimal, decimal_from}
use supavisor.Logrotate.{number_from, unless_zero, backup_number, number_of}
use supavisor.Logrotate.Names.{strip_prefix-append}

decimal_from-le : (n : ℕ) (s : Str) → n ≤ decimal_from n s
decimal_from-le n [] = omega arith
decimal_from-le n (c ∷ s) = omega (arith, decimal_from-le (n * 10 + (c - b'0')) s)

number_from-decimal :
    (n : ℕ) (s : Str)
    → AllDigits s
    → decimal_from n s < two_63
    → number_from n s ≡ some (decimal_from n s)
unfolding number_from
number_from-decimal n [] all lt = refl
number_from-decimal n (c ∷ s) all lt = ground (
  arith,
  all.0,
  decimal_from-le (n * 10 + (c - b'0')) s,
  number_from-decimal (n * 10 + (c - b'0')) s all.1 lt,
)

number_from-AllDigits : (n : ℕ) (s : Str) (m : ℕ) → number_from n s ≡ some m → AllDigits s
unfolding number_from
number_from-AllDigits n [] m h = tt
number_from-AllDigits n (c ∷ s) m h = elim (Bool-cases (is_digit c)) [
  | inl digit ↦ (
    digit,
    number_from-AllDigits ((n * 10 + (c - b'0')) % 18446744073709551616) s m (ground (arith, h)),
  )
  | inr other ↦ absurd (ground (arith, h))
]

strip_prefix-some : (a b s : Str) → strip_prefix a b ≡ some s → b ≡ a ++ s
unfolding strip_prefix
strip_prefix-some [] b s h = cc
strip_prefix-some (c ∷ a) [] s h = cc
strip_prefix-some (c ∷ a) (x ∷ b) s h = ground (arith, strip_prefix-some a b s)

-- The name of the log, a dot and digits, leading zeros included.
abbrev pub numbered : Str → Str → Str
numbered path ds = path ++ b'.' ∷ ds

unless_zero-pos : (n : ℕ) → 1 ≤ n → n < two_63 → unless_zero (some n) ≡ some (pos n)
unless_zero-pos zero one lt = absurd (omega (arith, one))
unless_zero-pos (suc n) one lt = ap some (to_int64-exact (suc n) lt)

backup_number-decimal :
    (ds : Str)
    → AllDigits ds
    → 1 ≤ decimal ds
    → decimal ds < two_63
    → backup_number ds ≡ some (pos (decimal ds))
unfolding backup_number
backup_number-decimal [] all one lt = absurd (omega (arith, one))
backup_number-decimal (c ∷ ds) all one lt =
    ap unless_zero (number_from-decimal 0 (c ∷ ds) all lt)
    ∙ unless_zero-pos (decimal (c ∷ ds)) one lt

strip_prefix-numbered :
    (path ds : Str) → strip_prefix (path ++ b'.' ∷ []) (numbered path ds) ≡ some ds
strip_prefix-numbered path ds =
    rw (← append_assoc path (b'.' ∷ []) ds) (strip_prefix-append (path ++ b'.' ∷ []) ds)

pub number-numbered :
    (path ds : Str)
    → AllDigits ds
    → 1 ≤ decimal ds
    → decimal ds < two_63
    → number_of (strip_prefix (path ++ b'.' ∷ []) (numbered path ds)) ≡ some (pos (decimal ds))
number-numbered path ds all one lt =
    ap number_of (strip_prefix-numbered path ds) ∙ backup_number-decimal ds all one lt

backup_number-AllDigits : (s : Str) {n : ℤ} → backup_number s ≡ some n → AllDigits s
unfolding backup_number
backup_number-AllDigits [] h = cc
backup_number-AllDigits (c ∷ s) h = by_number (number_from 0 (c ∷ s)) refl h
  where
    by_number :
        (o : Option ℕ) {n : ℤ}
        → number_from 0 (c ∷ s) ≡ o
        → unless_zero o ≡ some n
        → AllDigits (c ∷ s)
    by_number none e h = cc
    by_number (some m) e h = number_from-AllDigits 0 (c ∷ s) m e

backup_number-zero : (ds : Str) → AllDigits ds → decimal ds ≡ 0 → backup_number ds ≡ none
unfolding backup_number
backup_number-zero [] all h = refl
backup_number-zero (c ∷ ds) all h =
    ap unless_zero (number_from-decimal 0 (c ∷ ds) all (omega (arith, h)) ∙ ap some h)

-- A name from which no number is read, as it is not written so or stands for 0.
pub number-none :
    (path name : Str)
    → ((ds : Str) → AllDigits ds → name ≡ numbered path ds → decimal ds ≡ 0)
    → number_of (strip_prefix (path ++ b'.' ∷ []) name) ≡ none
number-none path name h = by_suffix (strip_prefix (path ++ b'.' ∷ []) name) refl
  where
    at_digits :
        (s : Str) (o : Option ℤ)
        → strip_prefix (path ++ b'.' ∷ []) name ≡ some s
        → backup_number s ≡ o
        → o ≡ none
    at_digits s none e f = refl
    at_digits s (some n) e f =
        let all = backup_number-AllDigits s f in
        let written = strip_prefix-some (path ++ b'.' ∷ []) name s e in
        cc (sym f ∙ backup_number-zero s all (h s all (written ∙ append_assoc path (b'.' ∷ []) s)))

    by_suffix : (o : Option Str) → strip_prefix (path ++ b'.' ∷ []) name ≡ o → number_of o ≡ none
    by_suffix none e = refl
    by_suffix (some s) e = at_digits s (backup_number s) e refl

-- ===== src/Config/Text/Digits.antt =====
-- Decimal numbers, and texts without blanks, through the functions of Config.Text.
use supavisor.Prelude.{
  ℕ, ◌+◌, ◌-◌, ◌*◌, ◌<◌, ◌≡◌, ◌≢◌, refl, true, false, none, some, [], ◌∷◌, ◌++◌, Str, str_eq, All,
  arith,
}
use supavisor.Prelude.Int.{pos, two_63}
use supavisor.Config.Text.{
  is_space, trim_left, trim_right, trim_space, upper, to_upper, strip_suffix, is_digit, digits_from,
  parse_int,
}

-- The number that decimal digits write.
abbrev pub decimal_from : ℕ → Str → ℕ
decimal_from n [] = n
decimal_from n (c ∷ s) = decimal_from (n * 10 + (c - b'0')) s

abbrev pub decimal : Str → ℕ
decimal s = decimal_from 0 s

abbrev pub AllDigits : Str → Type 0
AllDigits s = All (λ c. is_digit c ≡ true) s

trim_left-plain : (c : ℕ) (s : Str) → is_space c ≡ false → trim_left (c ∷ s) ≡ c ∷ s
unfolding trim_left
trim_left-plain c s h = rw h

trim_right-plain : (s : Str) → All (λ c. is_space c ≡ false) s → trim_right s ≡ s
unfolding trim_right
trim_right-plain [] h = refl
trim_right-plain (c ∷ s) h = ground (arith, trim_right-plain s h.1)

pub trim_space-plain : (s : Str) → All (λ c. is_space c ≡ false) s → trim_space s ≡ s
unfolding trim_space
trim_space-plain [] h = refl
trim_space-plain (c ∷ s) h = rw (trim_left-plain c s h.0) (trim_right-plain (c ∷ s) h)

pub to_upper-fixed : (s : Str) → All (λ c. upper c ≡ c) s → to_upper s ≡ s
unfolding to_upper
to_upper-fixed [] h = refl
to_upper-fixed (c ∷ s) h = ground (arith, to_upper-fixed s h.1)

-- A suffix that begins with no digit is not found across digits.
pub strip_suffix-digits :
    (k : ℕ) (ks ds rest : Str)
    → is_digit k ≡ false
    → AllDigits ds
    → strip_suffix (k ∷ ks) (ds ++ rest)
      ≡ elim (strip_suffix (k ∷ ks) rest) [ none ↦ none | some r ↦ some (ds ++ r) ]
unfolding strip_suffix str_eq
strip_suffix-digits k ks [] rest h all = ground arith
strip_suffix-digits k ks (d ∷ ds) rest h all =
    ground (arith, strip_suffix-digits k ks ds rest h all.1)

digits_from_lem : (n : ℕ) (ds : Str) → AllDigits ds → digits_from n ds ≡ some (decimal_from n ds)
unfolding digits_from
digits_from_lem n [] all = refl
digits_from_lem n (c ∷ ds) all = rw all.0 (digits_from_lem (n * 10 + (c - b'0')) ds all.1)

pub parse_int-digits :
    (ds : Str)
    → ds ≢ []
    → AllDigits ds
    → decimal ds < two_63
    → parse_int ds ≡ some (pos (decimal ds))
unfolding parse_int
parse_int-digits [] h all lt = absurd (h refl)
parse_int-digits (c ∷ ds) h all lt = ground (arith, digits_from_lem 0 (c ∷ ds) all)

pub digit-plain : (c : ℕ) → is_digit c ≡ true → is_space c ≡ false
digit-plain c h = ground arith

pub digit-upper : (c : ℕ) → is_digit c ≡ true → upper c ≡ c
digit-upper c h = ground arith

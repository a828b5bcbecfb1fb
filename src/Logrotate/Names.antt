-- ===== src/Logrotate/Names.antt =====
-- The names of the backups (internal/logrotate/writer.go, `backupPath` and `backupNumber`).
use supavisor.Prelude.{
  Bool-cases, ltb, ℕ, zero, suc, ◌+◌, ◌-◌, ◌*◌, ◌/◌, ◌%◌, ◌<◌, ◌≤◌, ◌≡◌, ◌≢◌, refl, sym, ap, ◌∙◌,
  false, Option, none, some, [], ◌∷◌, ◌++◌, if◌then◌else◌, Str, str_eq, str_eq_iff, arith,
  append_assoc, inl, inr,
}
use supavisor.Prelude.Int.{ℤ, pos, two_63, to_int64-exact}
use supavisor.Config.Text.{is_digit, strip_prefix}
use supavisor.Logrotate.{
  digits_of, decimal_text, backup_path, number_from, unless_zero, backup_number, number_of,
}

-- One more digit behind a text.
abbrev add_digit : ℕ → Option ℕ → Option ℕ
add_digit c none = none
add_digit c (some n) =
    if is_digit c then some ((n * 10 + (c - b'0')) % 18446744073709551616) else none

number_from-last :
    (num c : ℕ) (s : Str) → number_from num (s ++ c ∷ []) ≡ add_digit c (number_from num s)
unfolding number_from
number_from-last num c [] = ground arith
number_from-last num c (r ∷ s) =
    ground (arith, number_from-last ((num * 10 + (r - b'0')) % 18446744073709551616) c s)

number_from-digits :
    (fuel n : ℕ) → n < fuel → n < two_63 → number_from 0 (digits_of fuel n) ≡ some n
unfolding digits_of number_from
number_from-digits zero n h lt = absurd (omega (arith, h))
number_from-digits (suc fuel) n h lt = ground (
  arith,
  number_from-last 0 (b'0' + n % 10) (digits_of fuel (n / 10)),
  number_from-digits fuel (n / 10),
)

digits_of-starts : (fuel n : ℕ) → (c : ℕ) × (s : Str) × (digits_of (suc fuel) n ≡ c ∷ s)
unfolding digits_of
digits_of-starts fuel n = elim (Bool-cases (ltb n 10)) [
  | inl e ↦ (b'0' + n, [], rw e refl)
  | inr e ↦ rw e (front (digits_of fuel (n / 10)))
]
  where
    front : (f : Str) → (c : ℕ) × (s : Str) × (f ++ (b'0' + n % 10) ∷ [] ≡ c ∷ s)
    front [] = (b'0' + n % 10, [], refl)
    front (c ∷ f) = (c, f ++ (b'0' + n % 10) ∷ [], refl)

-- The number of a backup is read from its name.
backup_number-decimal_text :
    (n : ℕ) → 1 ≤ n → n < two_63 → backup_number (decimal_text n) ≡ some (pos n)
unfolding backup_number decimal_text
backup_number-decimal_text zero h lt = absurd (omega (arith, h))
backup_number-decimal_text (suc n) h lt =
    let (c, s, e) = digits_of-starts (suc n) (suc n) in
    ap backup_number e
    ∙ (ap unless_zero
          (sym (ap (number_from 0) e) ∙ number_from-digits (suc (suc n)) (suc n) (omega arith) lt)
        ∙ ap some (to_int64-exact (suc n) lt))

pub strip_prefix-append : (a b : Str) → strip_prefix a (a ++ b) ≡ some b
unfolding strip_prefix
strip_prefix-append [] b = refl
strip_prefix-append (c ∷ a) b = ground (arith, strip_prefix-append a b)

-- What `prune` reads from the name of a backup.
pub number-backup_path :
    (path : Str) (n : ℕ)
    → 1 ≤ n
    → n < two_63
    → number_of (strip_prefix (path ++ b'.' ∷ []) (backup_path path n)) ≡ some (pos n)
unfolding backup_path
number-backup_path path n h lt =
    ap number_of (
      ap (strip_prefix (path ++ b'.' ∷ [])) (sym (append_assoc path (b'.' ∷ []) (decimal_text n)))
      ∙ strip_prefix-append (path ++ b'.' ∷ []) (decimal_text n))
    ∙ backup_number-decimal_text n h lt

strip_prefix-longer : (a : Str) (c : ℕ) → strip_prefix (a ++ c ∷ []) a ≡ none
unfolding strip_prefix
strip_prefix-longer [] c = refl
strip_prefix-longer (x ∷ a) c = ground (arith, strip_prefix-longer a c)

-- The log is no backup of its own.
pub number-log : (path : Str) → number_of (strip_prefix (path ++ b'.' ∷ []) path) ≡ none
number-log path = ap number_of (strip_prefix-longer path b'.')

abbrev number_in : Str → Str → Option ℤ
number_in path name = number_of (strip_prefix (path ++ b'.' ∷ []) name)

pub backup_path-distinct :
    (path : Str) (i j : ℕ)
    → 1 ≤ i
    → i < two_63
    → 1 ≤ j
    → j < two_63
    → i ≢ j
    → str_eq (backup_path path i) (backup_path path j) ≡ false
backup_path-distinct path i j hi li hj lj n =
    elim (Bool-cases (str_eq (backup_path path i) (backup_path path j))) [
      | inr e ↦ e
      | inl e ↦ absurd (
          n (
            pos-injective (
              sym (number-backup_path path i hi li)
              ∙ (ap (number_in path) ((str_eq_iff _ _).0 e) ∙ number-backup_path path j hj lj))))
    ]
  where
    pos-injective : some (pos i) ≡ some (pos j) → i ≡ j
    pos-injective e = cc

pub backup_path-log :
    (path : Str) (i : ℕ) → 1 ≤ i → i < two_63 → str_eq (backup_path path i) path ≡ false
backup_path-log path i hi li = elim (Bool-cases (str_eq (backup_path path i) path)) [
  | inr e ↦ e
  | inl e ↦ cc (
      sym (number-backup_path path i hi li)
      ∙ (ap (number_in path) ((str_eq_iff _ _).0 e) ∙ number-log path))
]

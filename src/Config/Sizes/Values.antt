-- ===== src/Config/Sizes/Values.antt =====
-- Which number of bytes a log size stands for (internal/config/config.go, `parseBytes`).
use supavisor.Prelude.{
  ℕ, ◌*◌, ◌<◌, ◌≡◌, ◌≢◌, refl, ap, ◌∙◌, false, none, some, [], ◌∷◌, ◌++◌, Str, str_eq, text,
  is_empty, All, All-append, All-map, arith,
}
use mathlib.Core.List.{append-nil}
use supavisor.Prelude.Int.{pos, to_int64, to_int64-exact, two_63}
use supavisor.Config.Result.{ok}
use supavisor.Config.Text.{is_space, trim_space, upper, to_upper, strip_suffix, is_digit}
use supavisor.Config.Text.Digits.{
  decimal, AllDigits, trim_space-plain, to_upper-fixed, strip_suffix-digits, parse_int-digits,
  digit-plain, digit-upper,
}
use supavisor.Config.Sizes.{split_unit, parse_bytes}

-- A suffix that `parseBytes` knows, in upper case, and what it multiplies by.
pub data SizeUnit : Type 0 where
  no_suffix byte kilobyte megabyte gigabyte : SizeUnit

abbrev pub suffix : SizeUnit → Str
suffix no_suffix = []
suffix byte = text "B"
suffix kilobyte = text "KB"
suffix megabyte = text "MB"
suffix gigabyte = text "GB"

abbrev pub factor : SizeUnit → ℕ
factor no_suffix = 1
factor byte = 1
factor kilobyte = 1024
factor megabyte = 1048576
factor gigabyte = 1073741824

split_unit-digits :
    (u : SizeUnit) (ds : Str) → AllDigits ds → split_unit (ds ++ suffix u) ≡ (ds, factor u)
unfolding split_unit strip_suffix str_eq
split_unit-digits u ds all = by_unit u
  where
    find :
        (k : ℕ) (ks : Str) (v : SizeUnit)
        → is_digit k ≡ false
        → strip_suffix (k ∷ ks) (ds ++ suffix v)
          ≡ elim (strip_suffix (k ∷ ks) (suffix v)) [ none ↦ none | some r ↦ some (ds ++ r) ]
    find k ks v h = strip_suffix-digits k ks ds (suffix v) h all

    by_unit : (v : SizeUnit) → split_unit (ds ++ suffix v) ≡ (ds, factor v)
    by_unit no_suffix = rw (
      split_unit,
      find b'K' (text "B") no_suffix refl,
      find b'M' (text "B") no_suffix refl,
      find b'G' (text "B") no_suffix refl,
      find b'B' [] no_suffix refl,
      append-nil,
    )
    by_unit byte = rw (
      split_unit,
      find b'K' (text "B") byte refl,
      find b'M' (text "B") byte refl,
      find b'G' (text "B") byte refl,
      find b'B' [] byte refl,
      append-nil,
    )
    by_unit kilobyte = rw (split_unit, find b'K' (text "B") kilobyte refl, append-nil)
    by_unit megabyte = rw (
      split_unit,
      find b'K' (text "B") megabyte refl,
      find b'M' (text "B") megabyte refl,
      append-nil,
    )
    by_unit gigabyte = rw (
      split_unit,
      find b'K' (text "B") gigabyte refl,
      find b'M' (text "B") gigabyte refl,
      find b'G' (text "B") gigabyte refl,
      append-nil,
    )

suffix-plain : (u : SizeUnit) → All (λ c. is_space c ≡ false) (suffix u)
suffix-plain no_suffix = ground arith
suffix-plain byte = ground arith
suffix-plain kilobyte = ground arith
suffix-plain megabyte = ground arith
suffix-plain gigabyte = ground arith

suffix-upper : (u : SizeUnit) → All (λ c. upper c ≡ c) (suffix u)
suffix-upper no_suffix = ground arith
suffix-upper byte = ground arith
suffix-upper kilobyte = ground arith
suffix-upper megabyte = ground arith
suffix-upper gigabyte = ground arith

is_empty-append : (xs ys : Str) → xs ≢ [] → is_empty (xs ++ ys) ≡ false
is_empty-append [] ys h = absurd (h refl)
is_empty-append (x ∷ xs) ys h = refl

module _ (field : Str) (u : SizeUnit) (ds : Str) (some_digit : ds ≢ []) (digits : AllDigits ds)
    (fits : decimal ds < two_63) where
  abbrev size_text : Str
  size_text = ds ++ suffix u

  trimmed : trim_space size_text ≡ size_text
  trimmed = trim_space-plain size_text (
      All-append (λ c. is_space c ≡ false) ds (suffix u) (All-map _ _ digit-plain ds digits)
        (suffix-plain u))

  raised : to_upper size_text ≡ size_text
  raised = to_upper-fixed size_text (
      All-append (λ c. upper c ≡ c) ds (suffix u) (All-map _ _ digit-upper ds digits)
        (suffix-upper u))

  number_trimmed : trim_space ds ≡ ds
  number_trimmed = trim_space-plain ds (All-map _ _ digit-plain ds digits)

  not_empty : is_empty size_text ≡ false
  not_empty = is_empty-append ds (suffix u) some_digit

  product : parse_bytes field (ds ++ suffix u) ≡ ok (to_int64 (decimal ds * factor u))
  unfolding parse_bytes
  product = rw (
    parse_bytes,
    trimmed,
    not_empty,
    raised,
    split_unit-digits u ds digits,
    number_trimmed,
    parse_int-digits ds some_digit digits fits,
  )

  -- A decimal number below 2 ^ 63 with one of the suffixes stands for the int64 that the product
  -- wraps to: the product itself if that is below 2 ^ 63. A larger product is accepted all the
  -- same.
  pub parse_bytes_lem :
      (parse_bytes field (ds ++ suffix u) ≡ ok (to_int64 (decimal ds * factor u)))
      × (decimal ds * factor u < two_63
          → parse_bytes field (ds ++ suffix u) ≡ ok (pos (decimal ds * factor u)))
  parse_bytes_lem = (product, λ small. product ∙ ap ok (to_int64-exact _ small))

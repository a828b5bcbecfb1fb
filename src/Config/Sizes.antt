-- ===== src/Config/Sizes.antt =====
-- Log sizes: `parseBytes` of internal/config/config.go. An int64 product wraps.
pub mod Values
use supavisor.Prelude.{
  ℕ, ◌+◌, ◌*◌, ◌<◌, ◌≡◌, Bool, true, false, Option, none, some, List, [], ◌∷◌, if◌then◌else◌, Str,
  text, is_empty, arith,
}
use supavisor.Prelude.Int.{ℤ, pos, negsuc, to_int64}
use supavisor.Config.Result.{Result, ok, err, invalid_bytes, must_not_be_negative}
use supavisor.Config.Text.{trim_space, to_upper, strip_suffix, parse_int}

abbrev default_log_file_max_bytes : ℕ
default_log_file_max_bytes = 50 * 1024 * 1024

-- The number's text and the multiplier that the suffix stands for.
unfoldable pub split_unit : Str → Str × ℕ
split_unit s = elim (strip_suffix (text "KB") s) [
  | some rest ↦ (rest, 1024)
  | none ↦ elim (strip_suffix (text "MB") s) [
    | some rest ↦ (rest, 1024 * 1024)
    | none ↦ elim (strip_suffix (text "GB") s) [
      | some rest ↦ (rest, 1024 * 1024 * 1024)
      | none ↦ elim (strip_suffix (text "B") s) [ some rest ↦ (rest, 1) | none ↦ (s, 1) ]
    ]
  ]
]

abbrev scale : Str → Str → ℕ → Option ℤ → Result ℤ
scale field value multiplier none = err (invalid_bytes field value)
scale field value multiplier (some (negsuc n)) = err (must_not_be_negative field)
scale field value multiplier (some (pos n)) = ok (to_int64 (n * multiplier))

unfoldable pub parse_bytes : Str → Str → Result ℤ
parse_bytes field value =
    let trimmed = trim_space value in
    if is_empty trimmed
    then ok (pos default_log_file_max_bytes)
    else (let (number, multiplier) = split_unit (to_upper trimmed) in
        scale field value multiplier (parse_int (trim_space number)))

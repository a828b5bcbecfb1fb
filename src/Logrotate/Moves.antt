-- ===== src/Logrotate/Moves.antt =====
-- One renaming of a backup (internal/logrotate/writer.go, `shiftBackups`).
use supavisor.Prelude.{
  delete, ℕ, suc, ◌<◌, ◌≤◌, ◌≡◌, ◌≢◌, refl, sym, ap, ◌∙◌, false, Option, none, some, if◌then◌else◌,
  Str, str_eq, str_eq_iff, str_eq_refl, lookup, lookup-insert, lookup-delete, arith,
}
use supavisor.Prelude.Int.{two_63}
use supavisor.Logrotate.{Entry, Directory, backup_path, entry_is_dir, moved, rename}
use supavisor.Logrotate.Names.{backup_path-distinct}

abbrev pub or_else : Option Entry → Option Entry → Option Entry
or_else none o = o
or_else (some e) o = some e

pub lookup-rename :
    (from to a : Str) (d : Directory)
    → lookup a (rename from to d) ≡ (
        if str_eq to a
        then or_else (lookup from d) (lookup a d)
        else if str_eq from a
        then none
        else lookup a d)
unfolding rename
lookup-rename from to a d = by_entry (lookup from d) refl
  where
    by_entry :
        (o : Option Entry)
        → lookup from d ≡ o
        → lookup a (moved from to o d) ≡ (
            if str_eq to a
            then or_else o (lookup a d)
            else if str_eq from a
            then none
            else lookup a d)
    by_entry none e = ground (arith, str_eq_iff from a)
    by_entry (some x) e =
        ground (arith, lookup-insert to a x (delete from d), lookup-delete from a d)

pub or_else-none : (o : Option Entry) → or_else o none ≡ o
or_else-none none = refl
or_else-none (some e) = refl

module _ (path : Str) where
  abbrev pub slot : Directory → ℕ → Option Entry
  slot d i = lookup (backup_path path i) d

  -- No directory has the name of a backup.
  abbrev pub HasFiles : Directory → Type 0
  HasFiles d = (i : ℕ) → entry_is_dir (slot d i) ≡ false

  abbrev pub lifted : ℕ → Directory → Directory
  lifted i d = rename (backup_path path (suc i)) (backup_path path (suc (suc i))) d

  pub lifted-HasFiles : (i : ℕ) (d : Directory) → HasFiles d → HasFiles (lifted i d)
  lifted-HasFiles i d h j =
      ap entry_is_dir (
        lookup-rename (backup_path path (suc i)) (backup_path path (suc (suc i)))
          (backup_path path j) d)
      ∙ ground (arith, h j, h (suc i))

  pub lifted-at :
      (i j : ℕ) (d : Directory)
      → suc (suc i) < two_63
      → 1 ≤ j
      → j < two_63
      → j ≢ suc i
      → j ≢ suc (suc i)
      → slot (lifted i d) j ≡ slot d j
  lifted-at i j d h one lt n m =
      lookup-rename (backup_path path (suc i)) (backup_path path (suc (suc i))) (backup_path path j)
        d
      ∙ rw
          (
            backup_path-distinct path (suc (suc i)) j (omega arith) (omega (arith, h)) one lt
                (λ e. m (sym e)),
            backup_path-distinct path (suc i) j (omega arith) (omega (arith, h)) one lt
                (λ e. n (sym e)),
          )
          refl

  pub lifted-from :
      (i : ℕ) (d : Directory) → suc (suc i) < two_63 → slot (lifted i d) (suc i) ≡ none
  lifted-from i d h =
      lookup-rename (backup_path path (suc i)) (backup_path path (suc (suc i)))
        (backup_path path (suc i)) d
      ∙ rw
          (
            backup_path-distinct path (suc (suc i)) (suc i) (omega arith) (omega (arith, h))
                (omega arith) (omega (arith, h)) (λ e. omega (arith, e)),
            str_eq_refl (backup_path path (suc i)),
          )
          refl

  pub lifted-to :
      (i : ℕ) (d : Directory)
      → slot (lifted i d) (suc (suc i)) ≡ or_else (slot d (suc i)) (slot d (suc (suc i)))
  lifted-to i d =
      lookup-rename (backup_path path (suc i)) (backup_path path (suc (suc i)))
        (backup_path path (suc (suc i))) d
      ∙ rw (str_eq_refl (backup_path path (suc (suc i)))) refl

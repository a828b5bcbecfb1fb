-- ===== src/Logrotate/Prune.antt =====
-- Which entries a rotation removes (internal/logrotate/writer.go, `prune`).
use supavisor.Prelude.{
  ℕ, ◌<◌, ◌≡◌, ◌⊎◌, refl, sym, ap, ◌∙◌, Bool, true, false, not, ◌&&◌, Option, none, some, [], ◌∷◌,
  ◌++◌, if◌then◌else◌, Str, str_eq, str_eq_iff, lookup, lookup-delete, delete, IsMap, arith, inl,
  inr, Bool-cases,
}
use supavisor.Prelude.Int.{ℤ, pos, ◌<ℤ◌}
use supavisor.Config.Text.{strip_prefix}
use supavisor.Logrotate.{
  Env, Entry, Directory, Writer, number_of, is_beyond, is_expired, is_doomed, prune_entries, prune,
}
use supavisor.Logrotate.Names.{number-log}

-- A rule for removals, at an entry that may not be there.
abbrev at_entry : (Str → Entry → Bool) → Str → Option Entry → Bool
at_entry rule a none = false
at_entry rule a (some e) = rule a e

-- One round of the loop.
remove_one :
    (rule : Str → Entry → Bool) (name a : Str) (entry : Entry) (o : Option Entry) (d : Directory)
    → (str_eq name a ≡ true → o ≡ none)
    → (if at_entry rule a o then none else lookup a (if rule name entry then delete name d else d))
      ≡ (if at_entry rule a (if str_eq name a then some entry else o) then none else lookup a d)
remove_one rule name a entry o d h = elim (Bool-cases (str_eq name a)) [
  | inl same ↦ rw (h same, same) (at_name (rule name entry) refl same)
  | inr other ↦ rw other (at_other (rule name entry) o other)
]
  where
    at_name :
        (t : Bool)
        → rule name entry ≡ t
        → str_eq name a ≡ true
        → lookup a (if t then delete name d else d) ≡ (if rule a entry then none else lookup a d)
    at_name t e same =
        ground
          (arith, lookup-delete name a d, ap (λ x. rule x entry) ((str_eq_iff name a).0 same), e)

    at_other :
        (t : Bool) (o : Option Entry)
        → str_eq name a ≡ false
        → (if at_entry rule a o then none else lookup a (if t then delete name d else d))
          ≡ (if at_entry rule a o then none else lookup a d)
    at_other true o other =
        ap (λ x. if at_entry rule a o then none else x) (lookup-delete name a d ∙ rw other refl)
    at_other false o other = refl

module _ (env : Env) (w : Writer) where
  abbrev is_removed : Str → Entry → Bool
  is_removed name entry = is_doomed env w name entry && not (env.remove_fails name)

  lookup-prune_entries :
      (entries d : Directory) (a : Str)
      → IsMap entries
      → lookup a (prune_entries env w entries d)
        ≡ (if at_entry is_removed a (lookup a entries) then none else lookup a d)
  unfolding prune_entries lookup
  lookup-prune_entries [] d a m = refl
  lookup-prune_entries ((name, entry) ∷ entries) d a m =
      lookup-prune_entries entries (if is_removed name entry then delete name d else d) a m.1
      ∙ remove_one is_removed name a entry (lookup a entries) d
          (λ e. ap (λ x. lookup x entries) (sym ((str_eq_iff name a).0 e)) ∙ m.0)

  lookup-prune :
      (d : Directory) (a : Str)
      → IsMap d
      → lookup a (prune env w d) ≡ (
          if not env.read_dir_fails && at_entry is_removed a (lookup a d) then none else lookup a d)
  unfolding prune
  lookup-prune d a m = by_read env.read_dir_fails
    where
      by_read :
          (t : Bool)
          → lookup a (if t then d else prune_entries env w d d)
            ≡ (if not t && at_entry is_removed a (lookup a d) then none else lookup a d)
      by_read true = refl
      by_read false = lookup-prune_entries d d a m

  -- The number that `prune` reads from a name.
  abbrev pub number_at : Str → Option ℤ
  number_at name = number_of (strip_prefix (w.path ++ b'.' ∷ []) name)

  unnumbered-kept :
      (name : Str) (o : Option Entry) → number_at name ≡ none → at_entry is_removed name o ≡ false
  unnumbered-kept name none h = refl
  unnumbered-kept name (some e) h =
      ap
        (λ n.
          (not e.is_dir && is_beyond w.backups (is_expired env w name e) n)
          && not (env.remove_fails name))
        h
      ∙ ground arith

  unnumbered-same :
      (d : Directory) (name : Str)
      → IsMap d
      → number_at name ≡ none
      → lookup name (prune env w d) ≡ lookup name d
  unnumbered-same d name m h =
      lookup-prune d name m ∙ ground (arith, unnumbered-kept name (lookup name d) h)

  -- Why a backup is removed: there are more than is configured, or there is a limit on the age and
  -- the entry is known to be older than that.
  abbrev pub IsSurplus : Str → ℕ → Entry → Type 0
  IsSurplus name n e =
      (w.backups <ℤ pos n)
      ⊎ ((pos 0 <ℤ w.max_age) × (env.info_fails name ≡ false) × (e.modified < env.cutoff))

  -- The log itself is never removed.
  pub prune-log : (d : Directory) → IsMap d → lookup w.path (prune env w d) ≡ lookup w.path d
  prune-log d m = unnumbered-same d w.path m (number-log w.path)

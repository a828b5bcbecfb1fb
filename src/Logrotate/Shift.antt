-- ===== src/Logrotate/Shift.antt =====
-- Where a rotation moves the entries (internal/logrotate/writer.go, `shiftBackups`).
use supavisor.Prelude.{
  subst, ℕ, zero, suc, ◌<◌, ◌≤◌, ◌≡◌, ◌⊎◌, refl, sym, ap, ◌∙◌, Bool, true, false, Option, none,
  some, if◌then◌else◌, Str, str_eq, str_eq_iff, str_eq_refl, lookup, lookup-delete, delete, arith,
  inl, inr,
}
use supavisor.Prelude.Int.{ℤ, pos, negsuc, pos_part, two_63}
use supavisor.Logrotate.{
  Env, Entry, Directory, Writer, backup_path, rename, shift_down, shift_log, shift_kept,
  shift_backups,
}
use supavisor.Logrotate.Moves.{
  or_else, or_else-none, lookup-rename, slot, HasFiles, lifted, lifted-HasFiles, lifted-at,
  lifted-from, lifted-to,
}
use supavisor.Logrotate.Names.{backup_path-distinct, backup_path-log}

-- No call of a rotation fails.
pub record IsQuiet (env : Env) : Type 0 where
  pub stats : (i : ℕ) → env.stat_backup_fails i ≡ false
  pub renames : (i : ℕ) → env.rename_backup_fails i ≡ false
  pub log : env.rename_log_fails ≡ false
  pub removal : env.remove_log_fails ≡ false

str_eq_sym : (a b : Str) → str_eq b a ≡ str_eq a b
str_eq_sym a b = ground (arith, str_eq_iff a b, str_eq_iff b a)

lt_or_eq : (j i : ℕ) → j < suc i → (j < i) ⊎ (j ≡ i)
lt_or_eq j i h = ground arith

module _ (path : Str) where
  -- What a rotation with `n + 1` backups does to the entries.
  pub record IsRotated (n : ℕ) (d d' : Directory) : Type 0 where
    pub log : lookup path d' ≡ none
    newest : 1 ≤ n → slot path d' 1 ≡ lookup path d
    only : n ≡ 0 → slot path d' 1 ≡ or_else (lookup path d) (slot path d 1)
    moves : (j : ℕ) → 1 ≤ j → j < n → slot path d' (suc j) ≡ slot path d j
    oldest : 1 ≤ n → slot path d' (suc n) ≡ or_else (slot path d n) (slot path d (suc n))
    pub others :
        (a : Str)
        → str_eq path a ≡ false
        → ((j : ℕ) → 1 ≤ j → j ≤ suc n → str_eq (backup_path path j) a ≡ false)
        → lookup a d' ≡ lookup a d

  -- What it does where no backup is kept.
  pub record IsDiscarded (d d' : Directory) : Type 0 where
    pub log : lookup path d' ≡ none
    pub others : (a : Str) → str_eq path a ≡ false → lookup a d' ≡ lookup a d

  -- What it does, by the number of backups that are kept.
  abbrev pub IsShifted : ℤ → Directory → Directory → Type 0
  IsShifted (pos (suc n)) d d' = IsRotated n d d'
  IsShifted (pos zero) d d' = IsDiscarded d d'
  IsShifted (negsuc n) d d' = IsDiscarded d d'

  delete-IsDiscarded : (d : Directory) → IsDiscarded d (delete path d)
  delete-IsDiscarded d = record {
    log = lookup-delete path path d ∙ rw (str_eq_refl path) refl;
    others = λ a h. lookup-delete path a d ∙ rw h refl;
  }

module _ (env : Env) (quiet : IsQuiet env) (path : Str) where
  -- One round: the backup is moved up if it is there.
  shift_down-round :
      (i : ℕ) (d : Directory)
      → HasFiles path d
      → shift_down env path (suc i) d ≡ shift_down env path i (lifted path i d)
  unfolding shift_down rename
  shift_down-round i d h = by_entry (slot path d (suc i)) refl
    where
      by_entry :
          (o : Option Entry)
          → slot path d (suc i) ≡ o
          → shift_down env path (suc i) d ≡ shift_down env path i (lifted path i d)
      by_entry none e = ground (arith, quiet.stats (suc i), e)
      by_entry (some x) e =
          ground (arith, quiet.stats (suc i), quiet.renames (suc i), h (suc (suc i)), e)

  -- What the loop from `n` down to 1 does: every backup moves up, the highest is replaced if there is
  -- one below it.
  record Shifted (n : ℕ) (d d' : Directory) : Type 0 where
    first : 1 ≤ n → slot path d' 1 ≡ none
    moves : (j : ℕ) → 1 ≤ j → j < n → slot path d' (suc j) ≡ slot path d j
    last : 1 ≤ n → slot path d' (suc n) ≡ or_else (slot path d n) (slot path d (suc n))
    same : n ≡ 0 → d' ≡ d
    others :
        (a : Str)
        → ((j : ℕ) → 1 ≤ j → j ≤ suc n → str_eq (backup_path path j) a ≡ false)
        → lookup a d' ≡ lookup a d
    files : HasFiles path d'

  Shifted-round :
      (i : ℕ) (d d' : Directory)
      → suc (suc i) < two_63
      → Shifted i (lifted path i d) d'
      → Shifted (suc i) d d'
  Shifted-round i d d' lt s = record {
    first = λ x. first_free i lt s;
    moves = λ j one x. move j one x;
    last = λ x.
        s.others (backup_path path (suc (suc i))) (λ j one le.
          backup_path-distinct path j (suc (suc i)) one (omega (arith, lt)) (omega arith) lt
            (λ e. omega (arith, e)))
        ∙ lifted-to path i d;
    same = λ x. absurd (omega (arith, x));
    others = λ a x.
        s.others a (λ j one le. x j one (omega arith))
        ∙ (lookup-rename (backup_path path (suc i)) (backup_path path (suc (suc i))) a d
            ∙ rw
                (x (suc i) (omega arith) (omega arith), x (suc (suc i)) (omega arith) (omega arith))
                refl);
    files = s.files;
  }
    where
      at_top : 1 ≤ i → slot path d' (suc i) ≡ slot path d i
      at_top one =
          s.last one
          ∙ (ap (or_else (slot path (lifted path i d) i)) (lifted-from path i d lt)
              ∙ (or_else-none (slot path (lifted path i d) i)
                  ∙ lifted-at path i i d lt one (omega (arith, lt)) (λ e. omega (arith, e))
                      (λ e. omega (arith, e))))

      first_free :
          (k : ℕ) → suc (suc k) < two_63 → Shifted k (lifted path k d) d' → slot path d' 1 ≡ none
      first_free zero h t = ap (λ x. slot path x 1) (t.same refl) ∙ lifted-from path 0 d h
      first_free (suc k) h t = t.first (omega arith)

      move : (j : ℕ) → 1 ≤ j → j < suc i → slot path d' (suc j) ≡ slot path d j
      move j one x = elim (lt_or_eq j i x) [
        | inl less ↦
            s.moves j one less
            ∙ lifted-at path i j d lt one (omega (arith, lt)) (λ e. omega (arith, e))
                (λ e. omega (arith, e))
        | inr e ↦ top j one e
      ]
        where
          top : (k : ℕ) → 1 ≤ k → k ≡ i → slot path d' (suc k) ≡ slot path d k
          top k h e =
              subst (λ m. slot path d' (suc m) ≡ slot path d m) (sym e)
                (at_top (omega (arith, h, e)))

  shift_down-Shifted :
      (n : ℕ) (d : Directory)
      → HasFiles path d
      → suc n < two_63
      → (d' : Directory) × (shift_down env path n d ≡ (d', true)) × Shifted n d d'
  unfolding shift_down
  shift_down-Shifted zero d h lt = (
    d,
    refl,
    record {
      first = λ x. absurd (omega (arith, x));
      moves = λ j x y. absurd (omega (arith, y));
      last = λ x. absurd (omega (arith, x));
      same = λ x. refl;
      others = λ a x. refl;
      files = h;
    },
  )
  shift_down-Shifted (suc i) d h lt =
      let (d', e, s) =
        shift_down-Shifted i (lifted path i d) (lifted-HasFiles path i d h) (omega (arith, lt)) in
      (d', shift_down-round i d h ∙ e, Shifted-round i d d' lt s)

  log_moved :
      (n : ℕ) (d d' : Directory)
      → suc n < two_63
      → Shifted n d d'
      → IsRotated path n d (rename path (backup_path path 1) d')
  log_moved n d d' lt s = record {
    log = at path ∙ rw (backup_path-log path 1 (omega arith) (omega arith), str_eq_refl path) refl;
    newest = λ x. at_first ∙ (rw (s.first x) refl ∙ (or_else-none _ ∙ log_kept));
    only = λ x.
        at_first
        ∙ (ap (λ o. or_else o (slot path d' 1)) log_kept
            ∙ ap (λ e. or_else (lookup path d) (slot path e 1)) (s.same x));
    moves = λ j one x. higher (suc j) (omega arith) (omega (arith, lt, x)) ∙ s.moves j one x;
    oldest = λ x. higher (suc n) (omega (arith, x)) lt ∙ s.last x;
    others = λ a p x. at a ∙ (rw (x 1 (omega arith) (omega arith), p) refl ∙ s.others a x);
  }
    where
      at :
          (a : Str)
          → lookup a (rename path (backup_path path 1) d') ≡ (
              if str_eq (backup_path path 1) a
              then or_else (lookup path d') (lookup a d')
              else if str_eq path a
              then none
              else lookup a d')
      at a = lookup-rename path (backup_path path 1) a d'

      log_kept : lookup path d' ≡ lookup path d
      log_kept = s.others path (λ j one le. backup_path-log path j one (omega (arith, lt, le)))

      at_first :
          slot path (rename path (backup_path path 1) d') 1
          ≡ or_else (lookup path d') (slot path d' 1)
      at_first = at (backup_path path 1) ∙ rw (str_eq_refl (backup_path path 1)) refl

      higher :
          (j : ℕ)
          → 1 < j
          → j < two_63
          → slot path (rename path (backup_path path 1) d') j ≡ slot path d' j
      higher j one h =
          at (backup_path path j)
          ∙ rw
              (
                backup_path-distinct path 1 j (omega arith) (omega arith) (omega (arith, one)) h
                    (λ e. omega (arith, e, one)),
                str_eq_sym (backup_path path j) path
                    ∙ backup_path-log path j (omega (arith, one)) h,
              )
              refl

  shift_log-quiet :
      (d : Directory)
      → HasFiles path d
      → shift_log env path (d, true) ≡ (rename path (backup_path path 1) d, true)
  shift_log-quiet d h = rw (quiet.log, h 1) refl

-- A rotation in which no call fails, of a writer that keeps less than 2 ^ 63 backups, where no backup
-- is a directory. With at least one backup it loses at most the oldest: the log becomes the backup
-- 1 and each backup moves up by one, the highest only if there is one below it, and no other entry
-- changes. With none it deletes the log, and no other entry changes.
pub shift_backups_lem :
    (env : Env) (w : Writer) (d : Directory)
    → IsQuiet env
    → pos_part w.backups < two_63
    → HasFiles w.path d
    → (d' : Directory) × (shift_backups env w d ≡ (d', true)) × IsShifted w.path w.backups d d'
unfolding shift_backups
shift_backups_lem env w d quiet lt files = by_backups w.backups lt
  where
    discarded :
        (d' : Directory) × (◌≡◌ {A = Directory × Bool}
          (if env.remove_log_fails then (d, false) else (delete w.path d, true))
          (d', true))
        × IsDiscarded w.path d d'
    discarded = (delete w.path d, rw quiet.removal refl, delete-IsDiscarded w.path d)

    by_backups :
        (backups : ℤ)
        → pos_part backups < two_63
        → (d' : Directory) × (shift_kept env w.path backups d ≡ (d', true))
          × IsShifted w.path backups d d'
    by_backups (pos zero) lt = discarded
    by_backups (negsuc n) lt = discarded
    by_backups (pos (suc n)) lt =
        let (d', f, s) = shift_down-Shifted env quiet w.path n d files lt in
        (
          rename w.path (backup_path w.path 1) d',
          ap (shift_log env w.path) f ∙ shift_log-quiet env quiet w.path d' s.files,
          log_moved env quiet w.path n d d' lt s,
        )

-- ===== src/Logrotate/Bounds.antt =====
-- The limit on the size of a log file (internal/logrotate/writer.go, `Write`).
use supavisor.Prelude.{
  insert-IsMap, max, ℕ, zero, suc, ◌+◌, ◌<◌, ◌≤◌, ◌≡◌, ◌⊎◌, refl, sym, ap, subst, ◌∙◌, Bool, true,
  false, not, ◌&&◌, ◌||◌, Option, none, some, List, [], ◌∷◌, ◌++◌, length, length-append,
  if◌then◌else◌, Str, str_eq_refl, lookup, lookup-insert, lookup-delete, insert, delete, IsMap,
  arith, inl, inr,
}
use supavisor.Prelude.Int.{ℤ, pos, negsuc, two_63, ltb_ℤ, to_int64, to_int64-exact}
use supavisor.Logrotate.{
  Env, Entry, Directory, Writer, Rotated, Written, backup_path, plus, take, append, is_due,
  after_rotation, write, rotate, reopened, open_append, created, shift_kept, shift_log,
  shift_backups, shift_down, rename, entry_is_dir,
}
use supavisor.Logrotate.Names.{backup_path-log}
use supavisor.Logrotate.Moves.{lookup-rename}
use supavisor.Logrotate.Prune.{prune-log}
use supavisor.Logrotate.Maps.{shift_backups-IsMap}
use supavisor.Logrotate.Sizes.{IsTracked, plus-to_int64}

length-take : (n : ℕ) (p : List ℕ) → length (take n p) ≤ length p
unfolding take
length-take zero p = omega arith
length-take (suc n) [] = omega arith
length-take (suc n) (x ∷ p) = omega (arith, length-take n p)

-- A rotation that gets through leaves no log behind.
abbrev IsGone : Str → Directory × Bool → Type 0
IsGone path out = out.1 ≡ true → lookup path out.0 ≡ none

IsGone-unless :
    (t : Bool) (path : Str) (d d' : Directory)
    → lookup path d' ≡ none
    → IsGone path (if t then (d, false) else (d', true))
IsGone-unless true path d d' h e = cc
IsGone-unless false path d d' h e = h

shift_log-IsGone :
    (env : Env) (path : Str) (out : Directory × Bool) → IsGone path (shift_log env path out)
shift_log-IsGone env path (d, false) = λ h. cc
shift_log-IsGone env path (d, true) =
    IsGone-unless (env.rename_log_fails || entry_is_dir (lookup (backup_path path 1) d)) path d
      (rename path (backup_path path 1) d)
      (lookup-rename path (backup_path path 1) path d
        ∙ rw (backup_path-log path 1 (omega arith) (omega arith), str_eq_refl path) refl)

delete-IsGone :
    (t : Bool) (path : Str) (d : Directory)
    → IsGone path (if t then (d, false) else (delete path d, true))
delete-IsGone t path d =
    IsGone-unless t path d (delete path d) (lookup-delete path path d ∙ rw (str_eq_refl path) refl)

shift_backups-IsGone :
    (env : Env) (w : Writer) (d : Directory) → IsGone w.path (shift_backups env w d)
unfolding shift_backups
shift_backups-IsGone env w d = by_count w.backups
  where
    by_count : (k : ℤ) → IsGone w.path (shift_kept env w.path k d)
    by_count (pos (suc n)) = shift_log-IsGone env w.path (shift_down env w.path n d)
    by_count (pos zero) = delete-IsGone env.remove_log_fails w.path d
    by_count (negsuc n) = delete-IsGone env.remove_log_fails w.path d

-- What the log holds after a write: the text alone or behind what it held.
abbrev pub Holds : ℕ → ℕ → List ℕ → Entry → Option Entry → Type 0
Holds limit room p old none = ⊥
Holds limit room p old (some e) =
    (length e.content ≤ max limit (length p))
    × ((e.content ≡ take room p) ⊎ (e.content ≡ old.content ++ take room p))

append-lookup :
    (env : Env) (p : List ℕ) (w : Writer) (d : Directory) (e : Entry)
    → lookup w.path d ≡ some e
    → lookup w.path (append env p w d).dir
      ≡ some (record e { content = e.content ++ take env.room p; modified = env.now })
unfolding append
append-lookup env p w d e found =
    rw found (lookup-insert w.path w.path _ d ∙ rw (str_eq_refl w.path) refl)

not_due-fits :
    (size n m : ℕ)
    → size + n < two_63
    → (ltb_ℤ (pos 0) (pos (suc m))
        && (ltb_ℤ (pos 0) (to_int64 size) && ltb_ℤ (pos (suc m)) (plus (to_int64 size) n)))
      ≡ false
    → size + n ≤ max (suc m) n
not_due-fits size n m lt h =
    ground (arith, to_int64-exact size, to_int64-exact (size + n), plus-to_int64 size n)

abbrev emptied : Env → Entry
emptied env = record { is_dir = false; content = []; modified = env.now }

open_append-gone :
    (env : Env) (path : Str) (d : Directory)
    → env.open_fails ≡ false
    → lookup path d ≡ none
    → open_append env path d ≡ some (insert path (emptied env) d)
open_append-gone env path d opens gone =
    ap
      (λ b.
        if b || entry_is_dir (lookup path d)
        then none
        else some (created env path (lookup path d) d))
      opens
    ∙ ap (λ o. if entry_is_dir o then none else some (created env path o d)) gone

-- What `rotate` leaves, when its calls succeed: the log is new.
abbrev IsFresh : Env → Writer → Rotated → Type 0
IsFresh env w r =
    (r.succeeded ≡ true) × (r.writer.path ≡ w.path) × (lookup w.path r.dir ≡ some (emptied env))

rotate-IsFresh :
    (env : Env) (w : Writer) (d : Directory)
    → IsMap d
    → env.close_fails ≡ false
    → env.open_fails ≡ false
    → (shift_backups env w d).1 ≡ true
    → IsFresh env w (rotate env w d)
unfolding rotate
rotate-IsFresh env w d m closes opens shifts =
    let left = (shift_backups env w d).0 in
    let d' = insert w.path (emptied env) left in
    let once = insert-IsMap w.path (emptied env) left (shift_backups-IsMap env w d m) in
    let e =
      ap
        (λ b.
          if b
          then record { writer = w; dir = d; succeeded = false }
          else reopened env w (shift_backups env w d).1 left (open_append env w.path left))
        closes
      ∙ ap (reopened env w (shift_backups env w d).1 left)
          (open_append-gone env w.path left opens (shift_backups-IsGone env w d shifts)) in
    subst (IsFresh env w) (sym e) (
      shifts,
      refl,
      prune-log env _ d' once
          ∙ (lookup-insert w.path w.path (emptied env) left ∙ rw (str_eq_refl w.path) refl),
    )

Holds-append :
    (limit : ℕ) (env : Env) (p : List ℕ) (w : Writer) (d : Directory) (old e : Entry)
    → lookup w.path d ≡ some e
    → length (e.content ++ take env.room p) ≤ max limit (length p)
    → (e.content ≡ []) ⊎ (e.content ≡ old.content)
    → Holds limit env.room p old (lookup w.path (append env p w d).dir)
Holds-append limit env p w d old e found h c =
    subst (Holds limit env.room p old) (sym (append-lookup env p w d e found)) (h, by_content c)
  where
    by_content :
        (e.content ≡ []) ⊎ (e.content ≡ old.content)
        → (e.content ++ take env.room p ≡ take env.room p)
          ⊎ (e.content ++ take env.room p ≡ old.content ++ take env.room p)
    by_content (inl x) = inl (ap (λ l. l ++ take env.room p) x)
    by_content (inr x) = inr (ap (λ l. l ++ take env.room p) x)

-- When the calls of a rotation succeed, a log file holds no more than the limit after a write, or no
-- more than the text if that alone is longer: what it held has been rotated away, or is still there
-- before the text.
pub write-Holds :
    (env : Env) (p : List ℕ) (w : Writer) (d : Directory) (old : Entry) (m : ℕ)
    → IsTracked w d
    → w.is_open ≡ true
    → lookup w.path d ≡ some old
    → w.max_bytes ≡ pos (suc m)
    → length old.content + length p < two_63
    → env.close_fails ≡ false
    → env.open_fails ≡ false
    → (shift_backups env w d).1 ≡ true
    → Holds (suc m) env.room p old (lookup w.path (write env p w d).dir)
unfolding write rotate
write-Holds env p w d old m t held found limit lt closes opens shifts =
    let shut : Written = record { writer = w; dir = d; count = 0; failed = true } in
    subst Result
      (sym (
        ap
          (λ b.
            if not b
            then shut
            else if is_due w (length p)
            then after_rotation env p r
            else append env p w d)
          held))
      (by_due (is_due w (length p)) refl)
  where
    r : Rotated
    r = rotate env w d

    Result : Written → Type 0
    Result out = Holds (suc m) env.room p old (lookup w.path out.dir)

    fresh : IsFresh env w r
    fresh = rotate-IsFresh env w d t.unique closes opens shifts

    kept : w.size ≡ to_int64 (length old.content)
    kept =
        let (e, there, file, size) = t.current held in
        let same : e ≡ old = some-injective (sym there ∙ found) in
        size ∙ ap (λ (x : Entry). to_int64 (length x.content)) same
      where
        some-injective : {x y : Entry} → some x ≡ some y → x ≡ y
        some-injective h = cc

    fits : is_due w (length p) ≡ false → length old.content + length p ≤ max (suc m) (length p)
    fits e = not_due-fits (length old.content) (length p) m lt (
        sym (
          ap (λ k. ltb_ℤ (pos 0) k && (ltb_ℤ (pos 0) w.size && ltb_ℤ k (plus w.size (length p))))
            limit
          ∙ ap
              (λ z.
                ltb_ℤ (pos 0) (pos (suc m))
                && (ltb_ℤ (pos 0) z && ltb_ℤ (pos (suc m)) (plus z (length p))))
              kept)
        ∙ e)

    by_due :
        (b : Bool)
        → is_due w (length p) ≡ b
        → Result (if b then after_rotation env p r else append env p w d)
    by_due true e =
        let lost : Written = record { writer = r.writer; dir = r.dir; count = 0; failed = true } in
        subst Result
          (sym (
            ap (λ b. if not b && not r.writer.is_open then lost else append env p r.writer r.dir)
              fresh.0))
          (subst (λ x. Holds (suc m) env.room p old (lookup x (append env p r.writer r.dir).dir))
            fresh.1
            (Holds-append (suc m) env p r.writer r.dir old (emptied env)
              (ap (λ x. lookup x r.dir) fresh.1 ∙ fresh.2) (omega (arith, length-take env.room p))
              (inl refl)))
    by_due false e =
        Holds-append (suc m) env p w d old old found
          (omega
            (arith, length-append old.content (take env.room p), length-take env.room p, fits e))
          (inr refl)

-- ===== src/Logrotate/Sizes.antt =====
-- The size of a log file (internal/logrotate/writer.go, `Write` and `rotate`).
use supavisor.Prelude.{
  ℕ, ◌+◌, ◌≡◌, refl, sym, ap, subst, ◌∙◌, Bool, true, false, not, ◌&&◌, ◌||◌, Option, none, some,
  List, [], ◌++◌, length, length-append, if◌then◌else◌, Str, str_eq_refl, lookup, lookup-insert,
  insert, insert-IsMap, IsMap, arith,
}
use supavisor.Prelude.Int.{pos, to_int64}
use supavisor.Logrotate.{
  Env, Entry, Directory, Writer, Rotated, plus, take, appended, append, is_due, after_rotation,
  write, rotate, reopened, open_append, created, size_of, shift_backups, entry_is_dir,
}
use supavisor.Logrotate.Prune.{prune-log}
use supavisor.Logrotate.Maps.{shift_backups-IsMap, prune-IsMap, created-IsMap}

pub plus-to_int64 : (m n : ℕ) → plus (to_int64 m) n ≡ to_int64 (m + n)
plus-to_int64 m n = ground arith

-- While the file is open its entry is there, and the writer knows its size.
pub record IsTracked (w : Writer) (d : Directory) : Type 0 where
  pub unique : IsMap d
  pub current :
      w.is_open ≡ true
      → (e : Entry) × (lookup w.path d ≡ some e)
        × (e.is_dir ≡ false)
        × (w.size ≡ to_int64 (length e.content))

append-IsTracked :
    (env : Env) (p : List ℕ) (w : Writer) (d : Directory)
    → IsTracked w d
    → IsTracked (append env p w d).writer (append env p w d).dir
unfolding append
append-IsTracked env p w d t = record {
  unique = grown-IsMap (lookup w.path d);
  current = λ h.
      let (e, found, file, size) = t.current h in
      (
        record e { content = e.content ++ take env.room p; modified = env.now },
        rw found (lookup-insert w.path w.path _ d ∙ rw (str_eq_refl w.path) refl),
        file,
        ap (λ z. plus z (length (take env.room p))) size
            ∙ (plus-to_int64 (length e.content) (length (take env.room p))
                ∙ ap to_int64 (sym (length-append e.content (take env.room p)))),
      );
}
  where
    grown-IsMap : (o : Option Entry) → IsMap (appended env w.path (take env.room p) o d)
    grown-IsMap none = t.unique
    grown-IsMap (some e) = insert-IsMap w.path _ d t.unique

created-current :
    (env : Env) (path : Str) (d d' : Directory)
    → open_append env path d ≡ some d'
    → (e : Entry) × (lookup path d' ≡ some e) × (e.is_dir ≡ false)
created-current env path d d' h = by_entry env.open_fails (lookup path d) refl h
  where
    by_entry :
        (t : Bool) (o : Option Entry)
        → lookup path d ≡ o
        → (if t || entry_is_dir o then none else some (created env path o d)) ≡ some d'
        → (e : Entry) × (lookup path d' ≡ some e) × (e.is_dir ≡ false)
    by_entry true o f e = cc
    by_entry false none f e =
        let new : Entry = record { is_dir = false; content = []; modified = env.now } in
        let same : insert path new d ≡ d' = cc in
        (
          new,
          ap (lookup path) (sym same)
              ∙ (lookup-insert path path new d ∙ rw (str_eq_refl path) refl),
          refl,
        )
    by_entry false (some x) f e = by_kind x.is_dir refl e
      where
        by_kind :
            (b : Bool)
            → x.is_dir ≡ b
            → (if b then none else some d) ≡ some d'
            → (e : Entry) × (lookup path d' ≡ some e) × (e.is_dir ≡ false)
        by_kind true k g = cc
        by_kind false k g = let same : d ≡ d' = cc in (x, ap (lookup path) (sym same) ∙ f, k)

open_append-IsMap :
    (env : Env) (path : Str) (d d' : Directory)
    → IsMap d
    → open_append env path d ≡ some d'
    → IsMap d'
open_append-IsMap env path d d' m h = by_test (env.open_fails || entry_is_dir (lookup path d)) h
  where
    by_test :
        (t : Bool)
        → (if t then none else some (created env path (lookup path d) d)) ≡ some d'
        → IsMap d'
    by_test true e = cc
    by_test false e =
        let same : created env path (lookup path d) d ≡ d' = cc in
        subst IsMap same (created-IsMap env path (lookup path d) d m)

reopened-IsTracked :
    (env : Env) (w : Writer) (shifted : Bool) (left : Directory)
    → env.stat_fails ≡ false
    → IsMap left
    → (o : Option Directory) → open_append env w.path left ≡ o
    → IsTracked (reopened env w shifted left o).writer (reopened env w shifted left o).dir
reopened-IsTracked env w shifted left stat m none e = record { unique = m; current = λ h. cc }
reopened-IsTracked env w shifted left stat m (some d) e =
    let w' : Writer = record w {
      is_open = true;
      size = if env.stat_fails then pos 0 else size_of (lookup w.path d);
    } in
    let once = open_append-IsMap env w.path left d m e in
    let (entry, found, file) = created-current env w.path left d e in
    record {
      unique = prune-IsMap env w' d once;
      current = λ h. (
        entry,
        prune-log env w' d once ∙ found,
        file,
        ap (λ b. if b then pos 0 else size_of (lookup w.path d)) stat ∙ ap size_of found,
      );
    }

rotate-IsTracked :
    (env : Env) (w : Writer) (d : Directory)
    → env.stat_fails ≡ false
    → IsTracked w d
    → IsTracked (rotate env w d).writer (rotate env w d).dir
unfolding rotate
rotate-IsTracked env w d stat t = by_close env.close_fails
  where
    after : Rotated
    after =
        reopened env w (shift_backups env w d).1 (shift_backups env w d).0
          (open_append env w.path (shift_backups env w d).0)

    by_close :
        (b : Bool)
        → let r = if b then record { writer = w; dir = d; succeeded = false } else after in
          IsTracked r.writer r.dir
    by_close true = t
    by_close false =
        reopened-IsTracked env w (shift_backups env w d).1 (shift_backups env w d).0 stat
          (shift_backups-IsMap env w d t.unique) (open_append env w.path (shift_backups env w d).0)
          refl

-- While the file is open its entry is there, and the writer's size is that of the entry, up to the
-- wrap of an int64: `Write` keeps this whatever fails but the look at the reopened file.
pub write-IsTracked :
    (env : Env) (p : List ℕ) (w : Writer) (d : Directory)
    → env.stat_fails ≡ false
    → IsTracked w d
    → IsTracked (write env p w d).writer (write env p w d).dir
unfolding write
write-IsTracked env p w d stat t = by_open w.is_open (is_due w (length p))
  where
    r : Rotated
    r = rotate env w d

    tr : IsTracked r.writer r.dir
    tr = rotate-IsTracked env w d stat t

    by_loss :
        (b : Bool)
        → let out =
            if b
            then record { writer = r.writer; dir = r.dir; count = 0; failed = true }
            else append env p r.writer r.dir in
          IsTracked out.writer out.dir
    by_loss true = tr
    by_loss false = append-IsTracked env p r.writer r.dir tr

    by_open :
        (held due : Bool)
        → let out =
            if not held
            then record { writer = w; dir = d; count = 0; failed = true }
            else if due
            then after_rotation env p r
            else append env p w d in
          IsTracked out.writer out.dir
    by_open false due = t
    by_open true true = by_loss (not r.succeeded && not r.writer.is_open)
    by_open true false = append-IsTracked env p w d t

-- ===== src/Server/Pidlock/Exclusive.antt =====
-- What the lock of internal/server/pidlock.go keeps daemons from.
use supavisor.Prelude.{
  ℕ, ◌+◌, ◌≡◌, ◌≢◌, refl, true, Option, none, some, arith, Bool-cases, inl, inr,
}
use supavisor.Process.Reaper.{set}
use supavisor.Server.Pidlock.{
  Phase, idle, opened, locked, removing, closing, Locks, blank_locks, holds, open_or_create,
  open_pid_file, lock_pid_file, close_pid_file, same_file, stat_pid_file, remove_pid_file, Step,
  opens, locks, is_refused, looks, removes, gives_up, closes, dies, Reach, here, step, IsCalmStep,
  IsCalm,
}

-- One daemon at most has the lock of a file, and a file that is about to be removed is the one at
-- the path.
pub record IsGuarded (w : Locks) : Type 0 where
  pub alone : (d e i : ℕ) → holds (w.phase d) i ≡ true → holds (w.phase e) i ≡ true → d ≡ e
  pub own : (d i : ℕ) → w.phase d ≡ removing i → w.path ≡ some i

blank-IsGuarded : IsGuarded blank_locks
blank-IsGuarded = record { alone = λ d e i h k. cc; own = λ d i h. cc }

moved-IsGuarded :
    (d : ℕ) (x : Phase) (w : Locks)
    → ((i e : ℕ) → holds x i ≡ true → holds (w.phase e) i ≡ true → d ≡ e)
    → ((i : ℕ) → x ≡ removing i → w.path ≡ some i)
    → IsGuarded w
    → IsGuarded (record w { phase = set d x w.phase })
moved-IsGuarded d x w free own g = record {
  alone = λ a b i h k. ground (arith, g.alone a b i, free i a, free i b, h, k);
  own = λ a i h. ground (arith, g.own a i, own i, h);
}

repathed-IsGuarded :
    (p : Option ℕ) (w : Locks)
    → ((d i : ℕ) → w.phase d ≡ removing i → p ≡ some i)
    → IsGuarded w
    → IsGuarded (record w { path = p })
repathed-IsGuarded p w own g = record { alone = g.alone; own = own }

removed-IsGuarded :
    (d i : ℕ) (w : Locks) → w.phase d ≡ removing i → IsGuarded w → IsGuarded (remove_pid_file d i w)
unfolding remove_pid_file
removed-IsGuarded d i w h g =
    repathed-IsGuarded none (record w { phase = set d (closing i) w.phase })
      (λ e j k. ground (arith, k, h, g.own e j, g.own d i, g.alone d e i))
      (moved-IsGuarded d (closing i) w (λ j e x y. ground (arith, g.alone d e j, h, x, y))
        (λ j x. cc) g)

opened-IsGuarded :
    (d : ℕ) (w : Locks) (o : Option ℕ) → w.path ≡ o → IsGuarded w → IsGuarded (open_or_create d o w)
opened-IsGuarded d w none h g =
    repathed-IsGuarded (some w.next)
      (record w { phase = set d (opened w.next) w.phase; next = w.next + 1 })
      (λ e j k. ground (arith, k, h, g.own e j))
      (record {
        alone = λ a b i x y. ground (arith, g.alone a b i, x, y);
        own = λ a i x. ground (arith, g.own a i, x);
      })
opened-IsGuarded d w (some i) h g = moved-IsGuarded d (opened i) w (λ j e x y. cc) (λ j x. cc) g

looked-IsGuarded :
    (d i : ℕ) (w : Locks) → w.phase d ≡ locked i → IsGuarded w → IsGuarded (stat_pid_file d i w)
unfolding stat_pid_file
looked-IsGuarded d i w h g = elim (Bool-cases (same_file w.path i)) [
  | inl same ↦ rw same (
      moved-IsGuarded d (removing i) w (λ j e x y. ground (arith, g.alone d e j, h, x, y))
        (λ j x. same_file-path w.path i j same x) g)
  | inr other ↦ rw other (
      moved-IsGuarded d (closing i) w (λ j e x y. ground (arith, g.alone d e j, h, x, y))
        (λ j x. cc) g)
]
  where
    same_file-path :
        (o : Option ℕ) (i j : ℕ) → same_file o i ≡ true → removing i ≡ removing j → o ≡ some j
    same_file-path none i j h k = cc
    same_file-path (some k) i j h x = ground (arith, h, x)

Step-IsGuarded : {w v : Locks} → Step w v → IsGuarded w → IsGuarded v
unfolding open_pid_file lock_pid_file close_pid_file
Step-IsGuarded {w} (opens d h) g = opened-IsGuarded d w w.path refl g
Step-IsGuarded {w} (locks d i h free) g =
    moved-IsGuarded d (locked i) w (λ j e x y. ground (arith, free e, x, y)) (λ j x. cc) g
Step-IsGuarded {w} (is_refused d e i h k) g = moved-IsGuarded d idle w (λ j e x y. cc) (λ j x. cc) g
Step-IsGuarded {w} (looks d i h) g = looked-IsGuarded d i w h g
Step-IsGuarded {w} (removes d i h) g = removed-IsGuarded d i w h g
Step-IsGuarded {w} (gives_up d i h) g =
    moved-IsGuarded d (closing i) w (λ j e x y. ground (arith, g.alone d e j, h, x, y)) (λ j x. cc)
      g
Step-IsGuarded {w} (closes d i h) g = moved-IsGuarded d idle w (λ j e x y. cc) (λ j x. cc) g
Step-IsGuarded {w} (dies d) g = moved-IsGuarded d idle w (λ j e x y. cc) (λ j x. cc) g

-- However the steps of any number of daemons follow each other, at most one of them has the lock of
-- a file, and the file that a daemon is about to remove from the path is the one it has locked.
pub Reach-IsGuarded : (w : Locks) → Reach blank_locks w → IsGuarded w
Reach-IsGuarded w r = from r
  where
    from : {v : Locks} → Reach blank_locks v → IsGuarded v
    from here = blank-IsGuarded
    from (step r s) = Step-IsGuarded s (from r)

-- The file that a daemon has open, until it has removed it.
abbrev file_of : Phase → Option ℕ
file_of idle = none
file_of (opened i) = some i
file_of (locked i) = some i
file_of (removing i) = some i
file_of (closing i) = none

abbrev IsLive : Locks → Type 0
IsLive w = (d i : ℕ) → file_of (w.phase d) ≡ some i → w.path ≡ some i

moved-IsLive :
    (d : ℕ) (x : Phase) (w : Locks)
    → ((i : ℕ) → file_of x ≡ some i → w.path ≡ some i)
    → IsLive w
    → IsLive (record w { phase = set d x w.phase })
moved-IsLive d x w own l a i h = ground (arith, own i, l a i, h)

opened-IsLive :
    (d : ℕ) (w : Locks) (o : Option ℕ) → w.path ≡ o → IsLive w → IsLive (open_or_create d o w)
opened-IsLive d w none h l = λ a i k. ground (arith, k, h, l a i)
opened-IsLive d w (some j) h l = moved-IsLive d (opened j) w (λ i k. ground (arith, h, k)) l

removed-IsLive :
    (d i : ℕ) (w : Locks)
    → w.phase d ≡ removing i
    → ((e : ℕ) → w.phase e ≢ opened i)
    → IsGuarded w
    → IsLive w
    → IsLive (remove_pid_file d i w)
unfolding remove_pid_file
removed-IsLive d i w h calm g l a j k = by_phase (w.phase a) refl
  where
    by_phase : (x : Phase) → w.phase a ≡ x → none ≡ some j
    by_phase idle e = ground (arith, k, e)
    by_phase (closing n) e = ground (arith, k, e)
    by_phase (opened n) e = ground (arith, k, e, l a j, l d i, h, calm a)
    by_phase (locked n) e = ground (arith, k, e, l a j, l d i, h, g.alone d a j)
    by_phase (removing n) e = ground (arith, k, e, l a j, l d i, h, g.alone d a j)

Step-IsLive : {w v : Locks} (s : Step w v) → IsCalmStep s → IsGuarded w → IsLive w → IsLive v
unfolding open_pid_file lock_pid_file close_pid_file stat_pid_file
Step-IsLive {w} (opens d h) calm g l = opened-IsLive d w w.path refl l
Step-IsLive {w} (locks d i h free) calm g l =
    moved-IsLive d (locked i) w (λ j k. ground (arith, l d j, h, k)) l
Step-IsLive {w} (is_refused d e i h k) calm g l = moved-IsLive d idle w (λ j x. cc) l
Step-IsLive {w} (looks d i h) calm g l = elim (Bool-cases (same_file w.path i)) [
  | inl same ↦ rw same (moved-IsLive d (removing i) w (λ j k. ground (arith, l d j, h, k)) l)
  | inr other ↦ rw other (moved-IsLive d (closing i) w (λ j x. cc) l)
]
Step-IsLive {w} (removes d i h) calm g l = removed-IsLive d i w h calm g l
Step-IsLive {w} (gives_up d i h) calm g l = moved-IsLive d (closing i) w (λ j x. cc) l
Step-IsLive {w} (closes d i h) calm g l = moved-IsLive d idle w (λ j x. cc) l
Step-IsLive {w} (dies d) calm g l = moved-IsLive d idle w (λ j x. cc) l

Reach-IsLive : {w : Locks} (r : Reach blank_locks w) → IsCalm r → IsLive w
Reach-IsLive here calm = λ d i h. cc
Reach-IsLive (step {u} r s) (before, calm) =
    Step-IsLive s calm (Reach-IsGuarded u r) (Reach-IsLive r before)

-- However the steps of any number of daemons follow each other: unless one removes the file while
-- another is between opening it and locking it, two daemons never run at once.
pub Reach-alone :
    (w : Locks) (r : Reach blank_locks w) (d e i j : ℕ)
    → IsCalm r
    → w.phase d ≡ locked i
    → w.phase e ≡ locked j
    → d ≡ e
Reach-alone w r d e i j calm h k =
    let l = Reach-IsLive r calm in
    let g = Reach-IsGuarded w r in ground (arith, l d i, l e j, g.alone d e i, h, k)

-- ===== src/Server/Blocking/Search.antt =====
-- The search of internal/server/reconcile.go, `blockedByDependency`, ends.
use supavisor.Prelude.{
  unseen, unseen-le, unseen-lt, unseen-le-length, ℕ, zero, suc, ◌+◌, ◌≤◌, ◌≡◌, refl, ◌∙◌, ◌⊎◌, inl,
  inr, true, Option, none, some, List, [], ◌∷◌, length, Str, contains, lookup, arith, Bool-cases,
}
use supavisor.Config.{Dependency}
use supavisor.Process.{Process}
use supavisor.Server.{Server, dependencies_of}
use supavisor.Server.Blocking.{
  BlockReason, missing, Prospect, no_obstacle, look_deeper, obstacle, prospect, Found, go_on, walk,
  blocked_by_dependency, blocked_indefinitely,
}

by_process-deeper :
    (s : Server) (dep : Dependency) (o : Option Process)
    → lookup dep.name s.processes ≡ o
    → prospect s dep ≡ look_deeper
    → (p : Process) × (lookup dep.name s.processes ≡ some p)
unfolding prospect
by_process-deeper s dep none e h = absurd (missing-deeper (rw (prospect, e) refl ∙ h))
  where
    missing-deeper : obstacle (missing dep.name) ≡ look_deeper → ⊥
    missing-deeper x = cc
by_process-deeper s dep (some p) e h = (p, e)

look_deeper-process :
    (s : Server) (dep : Dependency)
    → prospect s dep ≡ look_deeper
    → (p : Process) × (lookup dep.name s.processes ≡ some p)
look_deeper-process s dep = by_process-deeper s dep (lookup dep.name s.processes) refl

pub Prospect-cases :
    (x : Prospect)
    → (x ≡ no_obstacle) ⊎ ((x ≡ look_deeper) ⊎ ((r : BlockReason) × (x ≡ obstacle r)))
Prospect-cases no_obstacle = inl refl
Prospect-cases look_deeper = inr (inl refl)
Prospect-cases (obstacle r) = inr (inr (r, refl))

pub walk-nil :
    (deeper : Str → List Str → Found) (s : Server) (seen : List Str)
    → walk deeper s [] seen ≡ some (seen, none)
unfolding walk
walk-nil deeper s seen = refl

module _ (deeper : Str → List Str → Found) (s : Server) (dep : Dependency) (deps : List Dependency)
    (seen : List Str) where
  pub walk-no_obstacle :
      prospect s dep ≡ no_obstacle → walk deeper s (dep ∷ deps) seen ≡ walk deeper s deps seen
  unfolding walk
  walk-no_obstacle h = rw (walk, h) refl

  pub walk-look_deeper :
      prospect s dep ≡ look_deeper
      → walk deeper s (dep ∷ deps) seen ≡ go_on (deeper dep.name seen) (walk deeper s deps)
  unfolding walk
  walk-look_deeper h = rw (walk, h) refl

  pub walk-obstacle :
      (r : BlockReason)
      → prospect s dep ≡ obstacle r
      → walk deeper s (dep ∷ deps) seen ≡ some (seen, some r)
  unfolding walk
  walk-obstacle r h = rw (walk, h) refl

-- An answer is found, and no process becomes unseen on the way.
abbrev Ends : Server → List Str → Found → Type 0
Ends s seen found =
    (out : List Str × Option BlockReason) × (found ≡ some out)
    × (unseen s.processes out.0 ≤ unseen s.processes seen)

go_on-Ends :
    (s : Server) (seen : List Str) (found : Found) (later : List Str → Found)
    → Ends s seen found
    → ((seen' : List Str)
        → unseen s.processes seen' ≤ unseen s.processes seen
        → Ends s seen' (later seen'))
    → Ends s seen (go_on found later)
go_on-Ends s seen found later ((seen', some r), e, le) next = ((seen', some r), rw e refl, le)
go_on-Ends s seen found later ((seen', none), e, le) next =
    let (out, f, less) = next seen' le in (out, rw e f, omega arith)

-- Fuel enough for a call: any for a name that was seen, else two more than there are processes
-- that stay unseen.
abbrev Fuelled : Server → ℕ → Str → List Str → Type 0
Fuelled s fuel name seen =
    (1 ≤ fuel) × ((contains seen name ≡ true) ⊎ (2 + unseen s.processes (name ∷ seen) ≤ fuel))

next-Fuelled :
    (s : Server) (fuel : ℕ) (dep : Dependency) (seen : List Str)
    → 1 + unseen s.processes seen ≤ fuel
    → prospect s dep ≡ look_deeper
    → Fuelled s fuel dep.name seen
next-Fuelled s fuel dep seen h e =
    let (p, found) = look_deeper-process s dep e in
    (
      omega arith,
      elim (Bool-cases (contains seen dep.name)) [
        | inl known ↦ inl known
        | inr fresh ↦ inr (omega (arith, unseen-lt s.processes dep.name seen p found fresh))
      ],
    )

walk-Ends :
    (s : Server) (fuel : ℕ) (deeper : Str → List Str → Found)
    → ((name : Str) (seen : List Str) → Fuelled s fuel name seen → Ends s seen (deeper name seen))
    → (deps : List Dependency) (seen : List Str) → 1 + unseen s.processes seen ≤ fuel
    → Ends s seen (walk deeper s deps seen)
walk-Ends s fuel deeper rec [] seen h = ((seen, none), walk-nil deeper s seen, omega arith)
walk-Ends s fuel deeper rec (dep ∷ deps) seen h = elim (Prospect-cases (prospect s dep)) [
  | inl e ↦ rw (walk-no_obstacle deeper s dep deps seen e) (walk-Ends s fuel deeper rec deps seen h)
  | inr (inl e) ↦ rw (walk-look_deeper deeper s dep deps seen e) (
      go_on-Ends s seen (deeper dep.name seen) (walk deeper s deps)
        (rec dep.name seen (next-Fuelled s fuel dep seen h e))
        (λ seen' le. walk-Ends s fuel deeper rec deps seen' (omega arith)))
  | inr (inr (r, e)) ↦ ((seen, some r), walk-obstacle deeper s dep deps seen r e, omega arith)
]

blocked_by_dependency-Ends :
    (s : Server) (fuel : ℕ) (name : Str) (seen : List Str)
    → Fuelled s fuel name seen
    → Ends s seen (blocked_by_dependency fuel s name seen)
unfolding blocked_by_dependency
blocked_by_dependency-Ends s zero name seen h = absurd (omega (arith, h.0))
blocked_by_dependency-Ends s (suc fuel) name seen (pos, inl known) =
    rw known ((seen, none), refl, omega arith)
blocked_by_dependency-Ends s (suc fuel) name seen (pos, inr enough) =
    elim (Bool-cases (contains seen name)) [
      | inl known ↦ rw known ((seen, none), refl, omega arith)
      | inr fresh ↦ rw fresh (
          let (out, e, le) =
            walk-Ends s fuel (blocked_by_dependency fuel s) (blocked_by_dependency-Ends s fuel)
              (dependencies_of s name) (name ∷ seen) (omega arith) in
          (out, e, omega (arith, unseen-le s.processes name seen)))
    ]

-- The fuel is enough: the search ends with an answer for every server and every name, however the
-- dependencies are connected.
pub blocked_indefinitely-ends :
    (s : Server) (name : Str)
    → (out : List Str × Option BlockReason) × (blocked_indefinitely s name ≡ some out)
unfolding blocked_indefinitely
blocked_indefinitely-ends s name =
    let (out, e, le) =
      blocked_by_dependency-Ends s (2 + length s.processes) name []
        (omega arith, inr (omega (arith, unseen-le-length s.processes (name ∷ [])))) in
    (out, e)

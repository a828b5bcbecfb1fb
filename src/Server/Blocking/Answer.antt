-- ===== src/Server/Blocking/Answer.antt =====
-- What the search of internal/server/reconcile.go, `blockedByDependency`, answers: it agrees with
-- the existence of a chain of dependencies that ends at one with no prospect.
use supavisor.Prelude.{
  ℕ, zero, suc, ◌≡◌, refl, subst, inl, inr, true, Option, none, some, List, [], ◌∷◌, ◌+◌, length,
  Str, str_eq, str_eq_iff, str_eq_refl, contains, arith, Bool-cases,
}
use supavisor.Config.{Dependency}
use supavisor.Server.{Server, dependencies_of}
use supavisor.Server.Blocking.{
  BlockReason, no_obstacle, look_deeper, prospect, Found, go_on, walk, blocked_by_dependency,
  blocked_indefinitely,
}
use supavisor.Server.Blocking.Chains.{
  IsBlocked, blocked_at, blocked_through, Starts-IsBlocked, IsClear, IsClosed, Judges, Answers,
  IsClosed-trans, IsClear-cons,
}
use supavisor.Server.Blocking.Search.{
  Prospect-cases, walk-nil, walk-no_obstacle, walk-look_deeper, walk-obstacle,
  blocked_indefinitely-ends,
}

Judges-skip :
    (s : Server) (dep : Dependency) (deps : List Dependency) (seen : List Str) (found : Found)
    → prospect s dep ≡ no_obstacle
    → Judges s deps seen found
    → Judges s (dep ∷ deps) seen found
Judges-skip s dep deps seen none e h = tt
Judges-skip s dep deps seen (some (seen', some r)) e (d, m, why) = (d, inr m, why)
Judges-skip s dep deps seen (some (seen', none)) e (g, clear, closed) =
    (g, IsClear-cons s seen' dep deps (inl e) clear, closed)

-- The walk after a call that found no chain.
Judges-later :
    (s : Server) (dep : Dependency) (deps : List Dependency) (seen mid : List Str) (found : Found)
    → prospect s dep ≡ look_deeper
    → Answers s dep.name seen (some (mid, none))
    → Judges s deps mid found
    → Judges s (dep ∷ deps) seen found
Judges-later s dep deps seen mid none e a h = tt
Judges-later s dep deps seen mid (some (seen', some r)) e a (d, m, why) = (d, inr m, why)
Judges-later s dep deps seen mid (some (seen', none)) e (g, was, closed) (g', clear, closed') = (
  λ x m. g' x (g x m),
  IsClear-cons s seen' dep deps (inr (e, g' dep.name was)) clear,
  IsClosed-trans s seen mid seen' closed g' closed',
)

go_on-Judges :
    (s : Server) (dep : Dependency) (deps : List Dependency) (seen : List Str) (found : Found)
    (later : List Str → Found)
    → prospect s dep ≡ look_deeper
    → Answers s dep.name seen found
    → ((mid : List Str) → Judges s deps mid (later mid))
    → Judges s (dep ∷ deps) seen (go_on found later)
go_on-Judges s dep deps seen none later e a h = tt
go_on-Judges s dep deps seen (some (mid, some r)) later e a h = (dep, inl refl, inr (e, a))
go_on-Judges s dep deps seen (some (mid, none)) later e a h =
    Judges-later s dep deps seen mid (later mid) e a (h mid)

walk-Judges :
    (s : Server) (deeper : Str → List Str → Found)
    → ((name : Str) (seen : List Str) → Answers s name seen (deeper name seen))
    → (deps : List Dependency) (seen : List Str) → Judges s deps seen (walk deeper s deps seen)
walk-Judges s deeper rec [] seen =
    rw (walk-nil deeper s seen) (λ a m. m, λ dep m. absurd m, λ a m. inl m)
walk-Judges s deeper rec (dep ∷ deps) seen = elim (Prospect-cases (prospect s dep)) [
  | inl e ↦
      rw (walk-no_obstacle deeper s dep deps seen e) (
        Judges-skip s dep deps seen (walk deeper s deps seen) e
          (walk-Judges s deeper rec deps seen))
  | inr (inl e) ↦ rw (walk-look_deeper deeper s dep deps seen e) (
      go_on-Judges s dep deps seen (deeper dep.name seen) (walk deeper s deps) e (rec dep.name seen)
        (walk-Judges s deeper rec deps))
  | inr (inr (r, e)) ↦ rw (walk-obstacle deeper s dep deps seen r e) (dep, inl refl, inl e)
]

-- A call for a name that was not seen, by what its walk says.
Answers-enter :
    (s : Server) (name : Str) (seen : List Str) (found : Found)
    → Judges s (dependencies_of s name) (name ∷ seen) found
    → Answers s name seen found
unfolding contains
Answers-enter s name seen none h = tt
Answers-enter s name seen (some (seen', some r)) h = Starts-IsBlocked s name r h
Answers-enter s name seen (some (seen', none)) (g, clear, closed) = (
  λ a m. g a (ground (arith, m)),
  g name (ground (arith, str_eq_refl name)),
  λ a m. elim (closed a m) [
    | inl was ↦ elim (Bool-cases (str_eq name a)) [
      | inl same ↦
          inr
            (subst (λ x. IsClear s seen' (dependencies_of s x)) ((str_eq_iff name a).0 same) clear)
      | inr other ↦ inl (ground (arith, was, other))
    ]
    | inr done ↦ inr done
  ],
)

blocked_by_dependency-Answers :
    (fuel : ℕ) (s : Server) (name : Str) (seen : List Str)
    → Answers s name seen (blocked_by_dependency fuel s name seen)
unfolding blocked_by_dependency
blocked_by_dependency-Answers zero s name seen = tt
blocked_by_dependency-Answers (suc fuel) s name seen = elim (Bool-cases (contains seen name)) [
  | inl known ↦ rw known (λ a m. m, known, λ a m. inl m)
  | inr fresh ↦ rw fresh (
      Answers-enter s name seen
        (walk (blocked_by_dependency fuel s) s (dependencies_of s name) (name ∷ seen))
        (walk-Judges s (blocked_by_dependency fuel s) (blocked_by_dependency-Answers fuel s)
          (dependencies_of s name) (name ∷ seen)))
]

-- No chain starts at a name that a search with no obstacle has seen.
closed-unblocked :
    (s : Server) (seen : List Str)
    → IsClosed s [] seen
    → (name : Str) (r : BlockReason) → contains seen name ≡ true
    → ¬ IsBlocked s name r
unfolding contains
closed-unblocked s seen closed name r m (blocked_at _ dep _ d e) = elim (closed name m) [
  | inl was ↦ cc
  | inr clear ↦ elim (clear dep d) [ inl e' ↦ cc | inr (e', seen_dep) ↦ cc ]
]
closed-unblocked s seen closed name r m (blocked_through _ dep _ d e b) = elim (closed name m) [
  | inl was ↦ cc
  | inr clear ↦ elim (clear dep d) [
    | inl e' ↦ cc
    | inr (e', seen_dep) ↦ closed-unblocked s seen closed dep.name r seen_dep b
  ]
]

blocked_indefinitely-Answers :
    (s : Server) (name : Str) → Answers s name [] (blocked_indefinitely s name)
unfolding blocked_indefinitely
blocked_indefinitely-Answers s name =
    blocked_by_dependency-Answers (2 + length s.processes) s name []

-- The answer to a search from the start is a chain's end, or there is no chain.
abbrev pub IsTruthful : Server → Str → Option BlockReason → Type 0
IsTruthful s name (some r) = IsBlocked s name r
IsTruthful s name none = (r : BlockReason) → ¬ IsBlocked s name r

Answers-IsTruthful :
    (s : Server) (name : Str) (seen : List Str) (answer : Option BlockReason)
    → Answers s name [] (some (seen, answer))
    → IsTruthful s name answer
Answers-IsTruthful s name seen (some r) h = h
Answers-IsTruthful s name seen none (g, was, closed) =
    λ r. closed-unblocked s seen closed name r was

-- The search answers for every server and every name, however the dependencies are connected. A
-- reason it gives is one that a chain of dependencies ends at, and where it gives none, there is
-- no such chain.
pub blocked_indefinitely_lem :
    (s : Server) (name : Str)
    → (seen : List Str) × ((answer : Option BlockReason) × (blocked_indefinitely s name
          ≡ some (seen, answer))
        × IsTruthful s name answer)
blocked_indefinitely_lem s name =
    let ((seen, answer), e) = blocked_indefinitely-ends s name in
    let answers = subst (Answers s name []) e (blocked_indefinitely-Answers s name) in
    (seen, (answer, e, Answers-IsTruthful s name seen answer answers))

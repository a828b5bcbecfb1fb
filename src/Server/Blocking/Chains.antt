-- ===== src/Server/Blocking/Chains.antt =====
-- Chains of dependencies that block a program (internal/server/reconcile.go), and what an answer of
-- the search for one says.
use supavisor.Prelude.{
  ◌≡◌, sym, subst, ◌⊎◌, inl, inr, true, none, some, List, ◌∷◌, Str, contains, In,
}
use supavisor.Config.{Dependency}
use supavisor.Server.{Server, dependencies_of}
use supavisor.Server.Blocking.{BlockReason, no_obstacle, look_deeper, obstacle, prospect, Found}

-- A chain from a program, over dependencies that are neither up nor without prospect, to one that
-- is without prospect for the reason given.
pub data IsBlocked (s : Server) : Str → BlockReason → Type 0 where
  blocked_at :
      (name : Str) (dep : Dependency) (r : BlockReason)
      → In dep (dependencies_of s name)
      → prospect s dep ≡ obstacle r
      → IsBlocked s name r
  blocked_through :
      (name : Str) (dep : Dependency) (r : BlockReason)
      → In dep (dependencies_of s name)
      → prospect s dep ≡ look_deeper
      → IsBlocked s dep.name r
      → IsBlocked s name r

-- A chain that starts with one of the dependencies.
abbrev Starts : Server → List Dependency → BlockReason → Type 0
Starts s deps r =
    (dep : Dependency) × In dep deps
    × ((prospect s dep ≡ obstacle r) ⊎ ((prospect s dep ≡ look_deeper) × IsBlocked s dep.name r))

pub Starts-IsBlocked :
    (s : Server) (name : Str) (r : BlockReason)
    → Starts s (dependencies_of s name) r
    → IsBlocked s name r
Starts-IsBlocked s name r (dep, m, inl e) = blocked_at name dep r m e
Starts-IsBlocked s name r (dep, m, inr (e, b)) = blocked_through name dep r m e b

-- Each of the dependencies is no obstacle, or was seen.
abbrev pub IsClear : Server → List Str → List Dependency → Type 0
IsClear s seen deps =
    (dep : Dependency)
    → In dep deps
    → (prospect s dep ≡ no_obstacle)
      ⊎ ((prospect s dep ≡ look_deeper) × (contains seen dep.name ≡ true))

abbrev Grows : List Str → List Str → Type 0
Grows seen seen' = (a : Str) → contains seen a ≡ true → contains seen' a ≡ true

-- What was seen on the way was searched to the end.
abbrev pub IsClosed : Server → List Str → List Str → Type 0
IsClosed s seen seen' =
    (a : Str)
    → contains seen' a ≡ true
    → (contains seen a ≡ true) ⊎ IsClear s seen' (dependencies_of s a)

-- What an answer to a walk over `deps` says.
abbrev pub Judges : Server → List Dependency → List Str → Found → Type 0
Judges s deps seen none = Unit
Judges s deps seen (some (seen', some r)) = Starts s deps r
Judges s deps seen (some (seen', none)) =
    Grows seen seen' × IsClear s seen' deps × IsClosed s seen seen'

-- What an answer to a call for `name` says.
abbrev pub Answers : Server → Str → List Str → Found → Type 0
Answers s name seen none = Unit
Answers s name seen (some (seen', some r)) = IsBlocked s name r
Answers s name seen (some (seen', none)) =
    Grows seen seen' × (contains seen' name ≡ true) × IsClosed s seen seen'

IsClear-Grows :
    (s : Server) (seen seen' : List Str) (deps : List Dependency)
    → Grows seen seen'
    → IsClear s seen deps
    → IsClear s seen' deps
IsClear-Grows s seen seen' deps g c dep m = elim (c dep m) [
  | inl e ↦ inl e
  | inr (e, was) ↦ inr (e, g dep.name was)
]

pub IsClosed-trans :
    (s : Server) (a b c : List Str) → IsClosed s a b → Grows b c → IsClosed s b c → IsClosed s a c
IsClosed-trans s a b c ab g bc x m = elim (bc x m) [
  | inl was ↦ elim (ab x was) [
    | inl first ↦ inl first
    | inr clear ↦ inr (IsClear-Grows s b c (dependencies_of s x) g clear)
  ]
  | inr clear ↦ inr clear
]

pub IsClear-cons :
    (s : Server) (seen : List Str) (dep : Dependency) (deps : List Dependency)
    → (prospect s dep ≡ no_obstacle)
      ⊎ ((prospect s dep ≡ look_deeper) × (contains seen dep.name ≡ true))
    → IsClear s seen deps
    → IsClear s seen (dep ∷ deps)
IsClear-cons s seen dep deps h c d (inl e) =
    subst
      (λ x.
        (prospect s x ≡ no_obstacle)
        ⊎ ((prospect s x ≡ look_deeper) × (contains seen x.name ≡ true)))
      (sym e) h
IsClear-cons s seen dep deps h c d (inr m) = c d m

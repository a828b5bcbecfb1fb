-- ===== src/Graph/Cores.antt =====
-- Orders of the nodes of internal/dependency/graph.go, and what stands in the way of one.
use supavisor.Prelude.{
  ◌≡◌, sym, subst, ◌∙◌, ◌⊎◌, inl, inr, true, false, List, [], ◌∷◌, ◌++◌, Str, str_eq, str_eq_iff,
  str_eq_refl, contains, contains-append, Distinct, lookup, has, arith, Bool-cases,
}
use supavisor.Graph.{Graph}
use supavisor.Graph.Updates.{deps_at, contains-append_last}

-- The dependencies of the name that are in the graph stand in the list.
abbrev pub IsMet : Graph → List Str → Str → Type 0
IsMet g seen a =
    (d : Str) → contains (deps_at g a) d ≡ true → has (lookup d g) ≡ true → contains seen d ≡ true

-- Each name stands behind its dependencies, those in `seen` left aside.
abbrev pub IsBehind : Graph → List Str → List Str → Type 0
IsBehind g seen [] = Unit
IsBehind g seen (a ∷ names) = IsMet g seen a × IsBehind g (seen ++ a ∷ []) names

-- An order of all the nodes, each once and behind its dependencies.
pub record IsOrder (g : Graph) (names : List Str) : Type 0 where
  pub once : Distinct names
  pub all : (a : Str) → contains names a ≡ has (lookup a g)
  pub behind : IsBehind g [] names

-- Names outside a list, one of them at least, each with a dependency outside it.
pub record HasCore (g : Graph) (placed : List Str) : Type 0 where
  pub start : Str
  pub start_in : has (lookup start g) ≡ true
  pub start_out : contains placed start ≡ false
  pub next :
      (a : Str)
      → has (lookup a g) ≡ true
      → contains placed a ≡ false
      → (d : Str) × (contains (deps_at g a) d ≡ true)
        × (has (lookup d g) ≡ true)
        × (contains placed d ≡ false)

pub IsBehind-append_last :
    (g : Graph) (seen names : List Str) (c : Str)
    → IsBehind g seen names
    → IsMet g (seen ++ names) c
    → IsBehind g seen (names ++ c ∷ [])
unfolding contains
IsBehind-append_last g seen [] c b m =
    (λ d x y. ground (arith, contains-append seen [] d, m d x y), tt)
IsBehind-append_last g seen (a ∷ names) c b m = (
  b.0,
  IsBehind-append_last g (seen ++ a ∷ []) names c b.1 (λ d x y.
      contains-append (seen ++ a ∷ []) names d
      ∙ ground (arith, contains-append seen (a ∷ names) d, contains-append_last seen a d, m d x y)),
)

-- A node whose dependencies are placed is not in the core.
pub met-placed :
    (g : Graph) (placed seen : List Str)
    → HasCore g placed
    → ((a : Str) → contains seen a ≡ true → contains placed a ≡ true)
    → (a : Str) → has (lookup a g) ≡ true
    → IsMet g seen a
    → contains placed a ≡ true
met-placed g placed seen core old a in_g met = elim (Bool-cases (contains placed a)) [
  | inl e ↦ e
  | inr e ↦
      let (d, lists, in_d, out) = core.next a in_g e in cc (sym out ∙ old d (met d lists in_d))
]

-- What an order places is never outside a list that has a core around it.
behind-core :
    (g : Graph) (placed seen names : List Str)
    → HasCore g placed
    → ((a : Str) → contains seen a ≡ true → contains placed a ≡ true)
    → ((a : Str) → contains names a ≡ true → has (lookup a g) ≡ true)
    → IsBehind g seen names
    → (a : Str) → contains names a ≡ true
    → contains placed a ≡ true
unfolding contains
behind-core g placed seen [] core old inside b a m = ground arith
behind-core g placed seen (x ∷ names) core old inside b a m =
    let in_x : has (lookup x g) ≡ true = inside x (ground (arith, str_eq_refl x)) in
    let here = met-placed g placed seen core old x in_x b.0 in
    elim (Bool-cases (str_eq x a)) [
      | inl same ↦ subst (λ y. contains placed y ≡ true) ((str_eq_iff x a).0 same) here
      | inr other ↦
          behind-core g placed (seen ++ x ∷ []) names core
            (λ y my. seen_placed here y (Bool-cases (str_eq x y)) my)
            (λ y my. inside y (ground (arith, my))) b.1 a (ground (arith, m, other))
    ]
  where
    seen_placed :
        contains placed x ≡ true
        → (y : Str) → (str_eq x y ≡ true) ⊎ (str_eq x y ≡ false)
        → contains (seen ++ x ∷ []) y ≡ true
        → contains placed y ≡ true
    seen_placed here y (inl same) my =
        subst (λ z. contains placed z ≡ true) ((str_eq_iff x y).0 same) here
    seen_placed here y (inr other) my =
        old y (ground (arith, contains-append_last seen x y, my, other))

-- Names that stand behind their dependencies are never outside such a list.
pub behind-placed :
    (g : Graph) (placed names : List Str)
    → HasCore g placed
    → ((a : Str) → contains names a ≡ true → has (lookup a g) ≡ true)
    → IsBehind g [] names
    → (a : Str) → contains names a ≡ true
    → contains placed a ≡ true
unfolding contains
behind-placed g placed names core = behind-core g placed [] names core (λ a m. cc)

pub IsOrder-coreless : (g : Graph) (names placed : List Str) → IsOrder g names → ¬ HasCore g placed
IsOrder-coreless g names placed o core = cc (
    sym core.start_out
    ∙ behind-placed g placed names core (λ a m. sym (o.all a) ∙ m) o.behind core.start
        (o.all core.start ∙ core.start_in))

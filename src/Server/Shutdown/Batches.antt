-- ===== src/Server/Shutdown/Batches.antt =====
-- Shutdown stops dependents first (internal/server/server.go, `stopAllProcesses`).
use supavisor.Prelude.{
  ◌≡◌, ◌≢◌, refl, ap, subst, ◌∙◌, true, ◌||◌, ◌&&◌, List, [], ◌∷◌, ◌++◌, Str, str_eq_iff, contains,
  contains-append, Dict, lookup, IsMap, has, arith, append-nil,
}
use supavisor.Process.{Process}
use supavisor.Graph.{Graph, Ordered, in_order, circular, no_fuel, concat, tiers}
use supavisor.Graph.Cores.{IsMet}
use supavisor.Graph.Tiers.{IsTiered, IsTiering, tiers-IsTiering}
use supavisor.Server.{Server}
use supavisor.Server.Names.{program_names}
use supavisor.Server.Names.Order.{program_names_lem}
use supavisor.Server.Shutdown.{
  build_dependency_graph, stop_order, managed, stop_backwards, stop_all_processes,
}
use supavisor.Server.Shutdown.Built.{names_of, Represents, build_dependency_graph-Represents}

contains-managed :
    (processes : Dict Process) (names : List Str) (a : Str)
    → contains (managed processes names) a ≡ (contains names a && has (lookup a processes))
unfolding managed contains
contains-managed processes [] a = refl
contains-managed processes (name ∷ names) a =
    ground (arith, contains-managed processes names a, str_eq_iff name a)

managed-nil : (processes : Dict Process) → managed processes [] ≡ []
unfolding managed
managed-nil processes = refl

contains-concat_append :
    (xs ys : List (List Str)) (a : Str)
    → contains (concat (xs ++ ys)) a ≡ (contains (concat xs) a || contains (concat ys) a)
unfolding concat contains
contains-concat_append [] ys a = refl
contains-concat_append (x ∷ xs) ys a = ground (
  arith,
  contains-append x (concat (xs ++ ys)) a,
  contains-append x (concat xs) a,
  contains-concat_append xs ys a,
)

contains-concat_one : (x : List Str) (a : Str) → contains (concat (x ∷ [])) a ≡ contains x a
unfolding concat
contains-concat_one x a = ap (λ y. contains y a) (append-nil x)

-- The same programs are stopped as stand in the tiers, those without a process left out.
contains-stop_backwards :
    (processes : Dict Process) (ts : List (List Str)) (a : Str)
    → contains (concat (stop_backwards processes ts)) a
      ≡ (contains (concat ts) a && has (lookup a processes))
unfolding stop_backwards concat contains
contains-stop_backwards processes [] a = refl
contains-stop_backwards processes (tier ∷ ts) a = ground (
  arith,
  contains-concat_append (stop_backwards processes ts) (managed processes tier ∷ []) a,
  contains-concat_one (managed processes tier) a,
  contains-managed processes tier a,
  contains-append tier (concat ts) a,
  contains-stop_backwards processes ts a,
)

-- A program is stopped in an earlier batch than the programs that it depends on: those are in a
-- later batch, or in the list at hand.
abbrev pub IsOutermostFirst : Server → List (List Str) → List Str → Type 0
IsOutermostFirst s [] seen = Unit
IsOutermostFirst s (batch ∷ later) seen =
    ((a : Str)
      → contains batch a ≡ true
      → (d : Str) → contains (names_of (lookup a s.config.programs)) d ≡ true
      → has (lookup d s.config.programs) ≡ true
      → has (lookup d s.processes) ≡ true
      → contains (concat later ++ seen) d ≡ true)
    × IsOutermostFirst s later seen

-- What a batch may rely on depends only on the names at hand.
outermost-weaken :
    (s : Server) (batches : List (List Str)) (seen seen' : List Str)
    → ((a : Str) → contains seen a ≡ true → contains seen' a ≡ true)
    → IsOutermostFirst s batches seen
    → IsOutermostFirst s batches seen'
outermost-weaken s [] seen seen' h o = tt
outermost-weaken s (batch ∷ later) seen seen' h o = (
  λ a m d x y z.
      contains-append (concat later) seen' d
      ∙ ground (arith, contains-append (concat later) seen d, o.0 a m d x y z, h d),
  outermost-weaken s later seen seen' h o.1,
)

outermost-append_last :
    (s : Server) (batches : List (List Str)) (batch seen : List Str)
    → IsOutermostFirst s batches (batch ++ seen)
    → IsOutermostFirst s (batch ∷ []) seen
    → IsOutermostFirst s (batches ++ batch ∷ []) seen
outermost-append_last s [] batch seen h one = one
outermost-append_last s (b ∷ batches) batch seen h one = (
  λ a m d x y z.
      contains-append (concat (batches ++ batch ∷ [])) seen d
      ∙ ground (
        arith,
        h.0 a m d x y z,
        contains-append (concat batches) (batch ++ seen) d,
        contains-append batch seen d,
        contains-concat_append batches (batch ∷ []) d,
        contains-concat_one batch d,
      ),
  outermost-append_last s batches batch seen h.1 one,
)

module _ (s : Server) (g : Graph) (r : Represents s.config.programs g) where
  tier-outermost :
      (seen tier : List Str)
      → ((a : Str) → contains tier a ≡ true → IsMet g seen a)
      → IsOutermostFirst s (managed s.processes tier ∷ []) (managed s.processes seen)
  unfolding concat
  tier-outermost seen tier h = (
    λ a m d x y z.
        contains-managed s.processes seen d
        ∙ ground (
          arith,
          h a (in_tier a m) d (ap (λ ds. contains ds d) (r.depends a) ∙ x) (r.nodes d ∙ y),
          z,
        ),
    tt,
  )
    where
      in_tier : (a : Str) → contains (managed s.processes tier) a ≡ true → contains tier a ≡ true
      in_tier a m = ground (arith, contains-managed s.processes tier a, m)

  tiered-outermost :
      (seen : List Str) (ts : List (List Str))
      → IsTiered g seen ts
      → IsOutermostFirst s (stop_backwards s.processes ts) (managed s.processes seen)
  unfolding stop_backwards
  tiered-outermost seen [] t = tt
  tiered-outermost seen (tier ∷ ts) t =
      outermost-append_last s (stop_backwards s.processes ts) (managed s.processes tier)
        (managed s.processes seen)
        (outermost-weaken s (stop_backwards s.processes ts) (managed s.processes (seen ++ tier))
          (managed s.processes tier ++ managed s.processes seen)
          (λ a m.
            contains-append (managed s.processes tier) (managed s.processes seen) a
            ∙ ground (
              arith,
              contains-managed s.processes (seen ++ tier) a,
              contains-managed s.processes tier a,
              contains-managed s.processes seen a,
              contains-append seen tier a,
              m,
            ))
          (tiered-outermost (seen ++ tier) ts t.1))
        (tier-outermost seen tier t.0)

-- Shutdown stops every managed program of the configuration. Unless the dependencies are circular,
-- in which case it stops all managed programs at once, no program is stopped before one that
-- depends on it: a program's dependencies, those of the configuration that are managed, are stopped
-- in later batches.
pub stop_all_processes_lem :
    (s : Server)
    → IsMap s.config.programs
    → IsMap s.processes
    → let g = build_dependency_graph s.config.programs in
      ((a : Str)
        → has (lookup a s.config.programs) ≡ true
        → has (lookup a s.processes) ≡ true
        → contains (concat (stop_all_processes s)) a ≡ true)
      × ((tiers g ≢ circular) → IsOutermostFirst s (stop_all_processes s) [])
unfolding stop_all_processes
stop_all_processes_lem s unique managed_once =
    let r = build_dependency_graph-Represents s.config.programs unique in
    let g = build_dependency_graph s.config.programs in
    let (ends, tiering) = tiers-IsTiering g r.linked in by_tiers r (tiers g) refl ends tiering
  where
    by_tiers :
        Represents s.config.programs (build_dependency_graph s.config.programs)
        → (o : Ordered (List (List Str))) → tiers (build_dependency_graph s.config.programs) ≡ o
        → o ≢ no_fuel
        → ((all : List (List Str))
            → o ≡ in_order all
            → IsTiering (build_dependency_graph s.config.programs) all)
        → ((a : Str)
            → has (lookup a s.config.programs) ≡ true
            → has (lookup a s.processes) ≡ true
            → contains (concat (stop_backwards s.processes (stop_order (program_names s) o))) a
              ≡ true)
          × (o ≢ circular
              → IsOutermostFirst s (stop_backwards s.processes (stop_order (program_names s) o)) [])
    by_tiers r no_fuel e ends t = absurd (ends refl)
    by_tiers r circular e ends t = (
      λ a x y.
          contains-stop_backwards s.processes (program_names s ∷ []) a
          ∙ ground (
            arith,
            contains-concat_one (program_names s) a,
            (program_names_lem s managed_once).2 a,
            y,
          ),
      λ n. absurd (n refl),
    )
    by_tiers r (in_order all) e ends t = (
      λ a x y.
          contains-stop_backwards s.processes all a
          ∙ ground (arith, (t all refl).every a, r.nodes a, x, y),
      λ n. outermost-nil (
          tiered-outermost s (build_dependency_graph s.config.programs) r [] all
            (t all refl).tiered),
    )
      where
        outermost-nil :
            IsOutermostFirst s (stop_backwards s.processes all) (managed s.processes [])
            → IsOutermostFirst s (stop_backwards s.processes all) []
        outermost-nil o =
            subst (IsOutermostFirst s (stop_backwards s.processes all)) (managed-nil s.processes) o

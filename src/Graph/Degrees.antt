-- ===== src/Graph/Degrees.antt =====
-- What both sorts of internal/dependency/graph.go start from.
use supavisor.Prelude.{
  ℕ, zero, suc, ◌≡◌, refl, ◌∙◌, true, false, ◌||◌, ◌&&◌, List, [], ◌∷◌, Str, str_eq, str_eq_iff,
  contains, Distinct, Dict, lookup, IsMap, has, arith,
}
use supavisor.Prelude.Int.{ℤ, pos}
use supavisor.Graph.{Graph, count_present, in_degrees, sources}
use supavisor.Graph.Updates.{deps_at}
use supavisor.Graph.Built.{IsLinked}
use supavisor.Graph.Counting.{count}
use supavisor.Graph.Kahn.{Inv}
use supavisor.Graph.Release.{degree, is_free}

count_present-eq-count :
    (g : Graph) (deps : List Str) → count_present g deps ≡ count (λ d. has (lookup d g)) deps
unfolding count_present
count_present-eq-count g [] = refl
count_present-eq-count g (dep ∷ deps) = ground (arith, count_present-eq-count g deps)

degree-in_degrees :
    (g h : Graph) (a : Str)
    → has (lookup a h) ≡ true
    → degree (lookup a (in_degrees g h)) ≡ pos (count_present g (deps_at h a))
unfolding in_degrees lookup
degree-in_degrees g [] a m = ground arith
degree-in_degrees g ((name, node) ∷ h) a m = ground (arith, degree-in_degrees g h a)

contains-sources_cons :
    (name : Str) (n : ℕ) (degrees : Dict ℤ) (a : Str)
    → contains (sources ((name, pos n) ∷ degrees)) a
      ≡ ((is_free (pos n) && str_eq name a) || contains (sources degrees) a)
unfolding sources contains
contains-sources_cons name zero degrees a = refl
contains-sources_cons name (suc n) degrees a = refl

contains-sources_nil : (a : Str) → contains (sources []) a ≡ false
unfolding sources contains
contains-sources_nil a = refl

sources_nil-Distinct : Distinct (sources [])
unfolding sources
sources_nil-Distinct = tt

contains-sources :
    (g h : Graph) (a : Str)
    → IsMap h
    → contains (sources (in_degrees g h)) a
      ≡ (has (lookup a h) && is_free (degree (lookup a (in_degrees g h))))
unfolding in_degrees lookup
contains-sources g [] a m = contains-sources_nil a
contains-sources g ((name, node) ∷ h) a m =
    contains-sources_cons name (count_present g node.dependencies) (in_degrees g h) a
    ∙ ground (arith, contains-sources g h a m.1, str_eq_iff name a)

sources_cons-Distinct :
    (name : Str) (n : ℕ) (degrees : Dict ℤ)
    → contains (sources degrees) name ≡ false
    → Distinct (sources degrees)
    → Distinct (sources ((name, pos n) ∷ degrees))
unfolding sources
sources_cons-Distinct name zero degrees h d = (h, d)
sources_cons-Distinct name (suc n) degrees h d = d

sources-Distinct : (g h : Graph) → IsMap h → Distinct (sources (in_degrees g h))
unfolding in_degrees
sources-Distinct g [] m = sources_nil-Distinct
sources-Distinct g ((name, node) ∷ h) m =
    sources_cons-Distinct name (count_present g node.dependencies) (in_degrees g h)
      (contains-sources g h name m.1 ∙ ground (arith, m.0)) (sources-Distinct g h m.1)

-- The start: nothing is placed, and the names with no dependency in the graph wait.
pub Inv-start :
    (g : Graph) (l : IsLinked g) → Inv g l [] (sources (in_degrees g g)) (in_degrees g g)
unfolding contains
Inv-start g l = record {
  placed_once = tt;
  waiting_once = sources-Distinct g g l.unique;
  apart = λ a m. cc;
  inside = λ a m. ground (arith, contains-sources g g a l.unique, m);
  counted =
      λ a h. ground (arith, degree-in_degrees g g a h, count_present-eq-count g (deps_at g a));
  ready = λ a h. ground (arith, contains-sources g g a l.unique, h);
}

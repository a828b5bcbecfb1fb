-- ===== src/Server/Shutdown/Built.antt =====
-- The graph of a configuration (internal/server/reload.go, `buildDependencyGraph`).
use supavisor.Prelude.{
  ◌≡◌, refl, ap, ◌∙◌, false, ◌||◌, Option, none, some, List, [], ◌∷◌, Str, str_eq_iff, contains,
  Dict, lookup, IsMap, has, arith,
}
use supavisor.Config.{ProgramConfig, dependency_names}
use supavisor.Graph.{Node, Graph, add_node}
use supavisor.Graph.Updates.{deps_at}
use supavisor.Graph.Built.{IsLinked, add_node-IsLinked, add_node-deps, add_node-has}
use supavisor.Server.Shutdown.{add_programs, build_dependency_graph}

abbrev pub names_of : Option ProgramConfig → List Str
names_of none = []
names_of (some prog) = dependency_names prog

-- The graph has the programs as nodes, with their dependencies.
pub record Represents (programs : Dict ProgramConfig) (g : Graph) : Type 0 where
  pub linked : IsLinked g
  pub nodes : (a : Str) → has (lookup a g) ≡ has (lookup a programs)
  pub depends : (a : Str) → deps_at g a ≡ names_of (lookup a programs)

empty-IsLinked : IsLinked []
unfolding lookup contains
empty-IsLinked = record { unique = tt; mutual_links = λ b a h. cc; distinct = λ b. tt }

add_programs-IsLinked :
    (programs : Dict ProgramConfig) (g : Graph) → IsLinked g → IsLinked (add_programs programs g)
unfolding add_programs
add_programs-IsLinked [] g l = l
add_programs-IsLinked ((name, prog) ∷ programs) g l =
    add_programs-IsLinked programs (add_node name (dependency_names prog) g)
      (add_node-IsLinked name (dependency_names prog) g l)

add_programs-has :
    (programs : Dict ProgramConfig) (g : Graph) (a : Str)
    → IsLinked g
    → has (lookup a (add_programs programs g)) ≡ (has (lookup a programs) || has (lookup a g))
unfolding add_programs lookup
add_programs-has [] g a l = refl
add_programs-has ((name, prog) ∷ programs) g a l = ground (
  arith,
  add_programs-has programs (add_node name (dependency_names prog) g) a
      (add_node-IsLinked name (dependency_names prog) g l),
  add_node-has name (dependency_names prog) g a l,
)

abbrev names_or : Option ProgramConfig → List Str → List Str
names_or none names = names
names_or (some prog) names = dependency_names prog

add_programs-deps :
    (programs : Dict ProgramConfig) (g : Graph) (a : Str)
    → IsMap programs
    → IsLinked g
    → deps_at (add_programs programs g) a ≡ names_or (lookup a programs) (deps_at g a)
unfolding add_programs lookup
add_programs-deps [] g a m l = refl
add_programs-deps ((name, prog) ∷ programs) g a m l = ground (
  arith,
  add_programs-deps programs (add_node name (dependency_names prog) g) a m.1
      (add_node-IsLinked name (dependency_names prog) g l),
  add_node-deps name (dependency_names prog) g a l,
  str_eq_iff name a,
)

empty-has : (a : Str) → has (lookup {V = Node} a []) ≡ false
unfolding lookup
empty-has a = refl

empty-deps : (a : Str) → deps_at [] a ≡ []
unfolding lookup
empty-deps a = refl

names_or-nil : (o : Option ProgramConfig) → names_or o [] ≡ names_of o
names_or-nil none = refl
names_or-nil (some prog) = refl

-- The graph that is built from programs, in whatever order they come, has each as a node with its
-- dependencies, and the dependents of each are the programs that depend on it.
pub build_dependency_graph-Represents :
    (programs : Dict ProgramConfig)
    → IsMap programs
    → Represents programs (build_dependency_graph programs)
unfolding build_dependency_graph
build_dependency_graph-Represents programs m = record {
  linked = add_programs-IsLinked programs [] empty-IsLinked;
  nodes = λ a. ground (arith, add_programs-has programs [] a empty-IsLinked, empty-has a);
  depends = λ a.
      add_programs-deps programs [] a m empty-IsLinked
      ∙ (ap (names_or (lookup a programs)) (empty-deps a) ∙ names_or-nil (lookup a programs));
}

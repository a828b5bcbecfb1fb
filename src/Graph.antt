-- ===== src/Graph.antt =====
-- The dependency graph of internal/dependency/graph.go. The nodes that the map points to are values
-- here, so an assignment through a pointer is an update at the node's name.
pub mod Counting
pub mod Updates
pub mod Links
pub mod Built
pub mod Release
pub mod Kahn
pub mod Degrees
pub mod Even
pub mod Cores
pub mod Orders
pub mod Tiers
use supavisor.Prelude.{
  has, ℕ, zero, suc, ◌+◌, ◌==◌, Bool, true, false, not, Option, none, some, List, [], ◌∷◌, ◌++◌,
  length, if◌then◌else◌, Str, str_eq, contains, sort, Dict, lookup, insert,
}
use supavisor.Prelude.Int.{ℤ, pos, negsuc}

pub record Node : Type 0 where
  pub name : Str
  pub dependencies : List Str
  pub dependents : List Str

abbrev pub Graph : Type 0
Graph = Dict Node

-- The body of a loop that visits a name only if it is in the graph.
abbrev pub update_found : Str → (Node → Node) → Option Node → Graph → Graph
update_found name f none g = g
update_found name f (some node) g = insert name (f node) g

unfoldable pub update : Str → (Node → Node) → Graph → Graph
update name f g = update_found name f (lookup name g) g

unfoldable pub without : Str → List Str → List Str
without name [] = []
without name (d ∷ ds) = let rest = without name ds in if str_eq d name then rest else d ∷ rest

abbrev pub drop_dependent : Str → Node → Node
drop_dependent name node = record node { dependents = without name node.dependents }

abbrev pub add_dependent : Str → Node → Node
add_dependent name node = record node {
  dependents =
      if contains node.dependents name then node.dependents else node.dependents ++ name ∷ [];
}

unfoldable pub unlink : Str → List Str → Graph → Graph
unlink name [] g = g
unlink name (dep ∷ deps) g = unlink name deps (update dep (drop_dependent name) g)

unfoldable pub link : Str → List Str → Graph → Graph
link name [] g = g
link name (dep ∷ deps) g = link name deps (update dep (add_dependent name) g)

-- The dependencies of one other node are searched for the name.
unfoldable pub adopt : Str → Str → List Str → Node → Node
adopt name other [] node = node
adopt name other (dep ∷ deps) node =
    adopt name other deps (if str_eq dep name then add_dependent other node else node)

-- The loop over the other nodes.
unfoldable pub adopt_all : Str → Graph → Node → Node
adopt_all name [] node = node
adopt_all name ((other, n) ∷ g) node =
    adopt_all name g (if str_eq other name then node else adopt name other n.dependencies node)

abbrev pub set_node : Str → List Str → Option Node → Graph → Graph
set_node name deps none g =
    insert name (record { name = name; dependencies = deps; dependents = [] }) g
set_node name deps (some old) g =
    update name (λ node. record node { dependencies = deps }) (unlink name old.dependencies g)

unfoldable pub add_node : Str → List Str → Graph → Graph
add_node name deps g =
    let linked = link name deps (set_node name deps (lookup name g) g) in
    update name (adopt_all name linked) linked

unfoldable pub count_present : Graph → List Str → ℕ
count_present g [] = 0
count_present g (dep ∷ deps) =
    let rest = count_present g deps in if has (lookup dep g) then suc rest else rest

-- The in-degrees that a sort starts from: one count for each time that a dependency is listed.
unfoldable pub in_degrees : Graph → Graph → Dict ℤ
in_degrees g [] = []
in_degrees g ((name, node) ∷ rest) =
    (name, pos (count_present g node.dependencies)) ∷ in_degrees g rest

unfoldable pub sources : Dict ℤ → List Str
sources [] = []
sources ((name, pos zero) ∷ degrees) = name ∷ sources degrees
sources ((name, pos (suc n)) ∷ degrees) = sources degrees
sources ((name, negsuc n) ∷ degrees) = sources degrees

-- `inDegree[dependent]--`; a missing entry counts as 0.
abbrev pub one_less : Option ℤ → ℤ
one_less none = negsuc 0
one_less (some (pos zero)) = negsuc 0
one_less (some (pos (suc n))) = pos n
one_less (some (negsuc n)) = negsuc (suc n)

abbrev pub if_zero : ℤ → Str → List Str → List Str
if_zero (pos zero) name names = name ∷ names
if_zero (pos (suc n)) name names = names
if_zero (negsuc n) name names = names

-- The inner loop: the new in-degrees, and the dependents that reach 0 in their order.
unfoldable pub release : List Str → Dict ℤ → Dict ℤ × List Str
release [] degrees = (degrees, [])
release (name ∷ names) degrees =
    let degree = one_less (lookup name degrees) in
    let (rest, freed) = release names (insert name degree degrees) in
    (rest, if_zero degree name freed)

abbrev pub dependents_of : Option Node → List Str
dependents_of none = []
dependents_of (some node) = node.dependents

abbrev pub deps_of : Option Node → List Str
deps_of none = []
deps_of (some node) = node.dependencies

-- The queue of `TopologicalSort`; `none` is that the fuel ran out.
unfoldable pub drain : ℕ → Graph → Dict ℤ → List Str → List Str → Option (List Str)
drain fuel g degrees [] result = some result
drain zero g degrees (current ∷ queue) result = none
drain (suc fuel) g degrees (current ∷ queue) result =
    let (rest, freed) = release (dependents_of (lookup current g)) degrees in
    drain fuel g rest (queue ++ freed) (result ++ current ∷ [])

pub data Ordered (A : Type 0) : Type 0 where
  in_order : A → Ordered A
  circular : Ordered A
  no_fuel : Ordered A

abbrev pub check_all : Graph → Option (List Str) → Ordered (List Str)
check_all g none = no_fuel
check_all g (some result) = if length result == length g then in_order result else circular

unfoldable pub topological_sort : Graph → Ordered (List Str)
topological_sort g =
    let degrees = in_degrees g g in check_all g (drain (length g) g degrees (sources degrees) [])

-- One tier: what its nodes set free.
unfoldable pub release_all : Graph → List Str → Dict ℤ → Dict ℤ × List Str
release_all g [] degrees = (degrees, [])
release_all g (name ∷ names) degrees =
    let (rest, freed) = release (dependents_of (lookup name g)) degrees in
    let (last, later) = release_all g names rest in (last, freed ++ later)

unfoldable pub concat : List (List Str) → List Str
concat [] = []
concat (names ∷ tiers) = names ++ concat tiers

-- The loop of `Tiers`; the tiers so far in their order.
unfoldable pub stack_tiers :
    ℕ → Graph → Dict ℤ → List Str → List (List Str) → Option (List (List Str))
stack_tiers fuel g degrees [] tiers = some tiers
stack_tiers zero g degrees (name ∷ names) tiers = none
stack_tiers (suc fuel) g degrees (name ∷ names) tiers =
    let current = sort (name ∷ names) in
    let (rest, next) = release_all g current degrees in
    stack_tiers fuel g rest next (tiers ++ current ∷ [])

-- `placed` is the sum of the lengths of the tiers.
abbrev pub check_placed : Graph → Option (List (List Str)) → Ordered (List (List Str))
check_placed g none = no_fuel
check_placed g (some tiers) = if length (concat tiers) == length g then in_order tiers else circular

unfoldable pub tiers : Graph → Ordered (List (List Str))
tiers g =
    let degrees = in_degrees g g in
    check_placed g (stack_tiers (length g) g degrees (sources degrees) [])

unfoldable get_dependencies : Graph → Str → List Str
get_dependencies g name = deps_of (lookup name g)

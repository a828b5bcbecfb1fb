-- ===== src/Config/DependsOn/Forms.antt =====
-- The forms of `depends_on` (internal/config/dependency.go) mean what was written.
use supavisor.Prelude.{◌≡◌, refl, Bool, true, false, Option, List, [], ◌∷◌, Str, text, str_eq}
use supavisor.Config.{
  Dependency, DependencyCondition, condition_started, condition_healthy, condition_completed,
}
use supavisor.Config.Result.{ok}
use supavisor.Config.DependsOn.{
  mapping_node, scalar_node, Node, node, Nodes, no_nodes, and_nodes, condition_text, condition_of,
  parse_dependency_condition, parse_entry, parse_dependency_mapping, unmarshal_yaml,
}

abbrev word : Str → Node
word value = node scalar_node (text "!!str") value no_nodes

-- The value of an entry: nothing where the condition is the default and it need not be written.
abbrev pub entry : Bool → DependencyCondition → Node
entry true condition_started = node scalar_node (text "!!null") [] no_nodes
entry short c =
    node mapping_node (text "!!map") []
      (and_nodes (word (text "condition")) (and_nodes (word (condition_text c)) no_nodes))

-- A mapping that says of each dependency its condition, in short or not.
abbrev pub written : List (Bool × Dependency) → Nodes
written [] = no_nodes
written ((short, dep) ∷ deps) =
    and_nodes (word dep.name) (and_nodes (entry short dep.condition) (written deps))

abbrev pub dependencies : List (Bool × Dependency) → List Dependency
dependencies [] = []
dependencies ((short, dep) ∷ deps) = dep ∷ dependencies deps

parse_entry-entry :
    (short : Bool) (name : Str) (c : DependencyCondition) → parse_entry name (entry short c) ≡ ok c
unfolding parse_dependency_condition condition_of str_eq
parse_entry-entry true name condition_started = refl
parse_entry-entry true name condition_healthy = refl
parse_entry-entry true name condition_completed = refl
parse_entry-entry false name condition_started = refl
parse_entry-entry false name condition_healthy = refl
parse_entry-entry false name condition_completed = refl

-- The mapping form is read back as the dependencies that were written, in their order, whether or
-- not the default condition is written out.
pub unmarshal_yaml-written :
    (decode : Node → Option (List Str)) (tag value : Str) (deps : List (Bool × Dependency))
    → unmarshal_yaml decode (node mapping_node tag value (written deps)) ≡ ok (dependencies deps)
unfolding unmarshal_yaml parse_dependency_mapping
unmarshal_yaml-written decode tag value deps = by_entry deps
  where
    by_entry :
        (later : List (Bool × Dependency))
        → parse_dependency_mapping (written later) ≡ ok (dependencies later)
    by_entry [] = refl
    by_entry ((short, dep) ∷ later) =
        rw (parse_entry-entry short dep.name dep.condition) (rw (by_entry later) refl)
